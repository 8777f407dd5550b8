-- ===== src/Alerting/Manager/Caps.antt =====
-- window.go, `WindowManager`: no window holds more events than a window may, over every call.
use blazelog.Base.{
  ℕ, zero, suc, ◌≤◌, ◌≡◌, inl, inr, refl, subst, ◌∙◌, String, Option, none, some, [], ◌∷◌, arith,
  length, drop, get_elem?, set, ltb, Bool-cases, Option-cases, length-drop,
}
use blazelog.Base.Dict.{lookup, insert, str_eq}
use blazelog.Alerting.Window.{
  SlidingWindow, new_sliding_window, max_events_per_rule, add_at, count_at,
}
use blazelog.Alerting.Window.Count.{add_at_bounds, add_at_settings, count_at_bounds}
use blazelog.Alerting.Manager.{
  WindowManager, Windows, max_total_events, or_new, oldest, evict_count, evict_from, evict_once,
  evict_loop, evict_if_needed, record_event, add_event_at, count,
}

-- The window has the size that `NewSlidingWindow` gives, and keeps to it.
abbrev pub Cap : SlidingWindow → Type 0
Cap w = (w.max_size ≡ max_events_per_rule) × (length w.events ≤ max_events_per_rule)

abbrev pub Capped : Windows → Type 0
Capped [] = Unit {0}
Capped ((_, w) ∷ m) = Cap w × Capped m

abbrev CapFound : Option SlidingWindow → Type 0
CapFound none = Unit {0}
CapFound (some w) = Cap w

lookup-Capped : (name : String) (m : Windows) → Capped m → CapFound (lookup name m)
unfolding lookup
lookup-Capped name [] c = tt
lookup-Capped name ((k, w) ∷ m) c = elim (Bool-cases (str_eq k name)) [
  | inl same ↦ rw same c.0
  | inr differs ↦ rw differs (lookup-Capped name m c.1)
]

insert-Capped :
    (name : String) (w : SlidingWindow) (m : Windows) → Cap w → Capped m → Capped (insert name w m)
unfolding insert
insert-Capped name w [] cap c = (cap, tt)
insert-Capped name w ((k, v) ∷ m) cap c = elim (Bool-cases (str_eq k name)) [
  | inl same ↦ rw same (cap, c.1)
  | inr differs ↦ rw differs (c.0, insert-Capped name w m cap c.1)
]

-- Dropping events from the window at one place.
set-Capped :
    (m : Windows) (i : ℕ) (k : String) (w : SlidingWindow) (n : ℕ)
    → Capped m
    → get_elem? m i ≡ some (k, w)
    → Capped (set m i (k, record w { events = drop n w.events }))
set-Capped [] i k w n c e = tt
set-Capped ((j, v) ∷ m) zero k w n c e =
    let same : v ≡ w = cc in
    let cap = subst Cap same c.0 in ((cap.0, omega (arith, cap.1, length-drop n w.events)), c.1)
set-Capped ((j, v) ∷ m) (suc i) k w n c e = (c.0, set-Capped m i k w n c.1 e)

abbrev CappedManager : Option WindowManager → Type 0
CappedManager none = Unit {0}
CappedManager (some wm) = Capped wm.windows

evict_from-Capped :
    (wm : WindowManager) (best : Option (ℕ × ℕ))
    → Capped wm.windows
    → CappedManager (evict_from wm best)
unfolding evict_from
evict_from-Capped wm none c = tt
evict_from-Capped wm (some (i, t)) c = elim (Option-cases (get_elem? wm.windows i)) [
  | inl missing ↦ rw (evict_from, missing) tt
  | inr ((k, w), found) ↦
      rw (evict_from, found) (set-Capped wm.windows i k w (evict_count w) c found)
]

evict_loop-Capped :
    (rounds : ℕ) (wm : WindowManager) → Capped wm.windows → Capped (evict_loop rounds wm).windows
unfolding evict_loop evict_once
evict_loop-Capped zero wm c = c
evict_loop-Capped (suc rounds) wm c = elim (Bool-cases (ltb max_total_events wm.total_events)) [
  | inr within ↦ rw (evict_loop, within) c
  | inl over ↦
      rw (evict_loop, over)
        (elim (Option-cases (evict_once wm)) [
          | inl stuck ↦ rw stuck c
          | inr (wm', e) ↦ rw e (
              evict_loop-Capped rounds wm'
                (subst CappedManager e (evict_from-Capped wm (oldest none 0 wm.windows) c)))
        ])
]

or_new-Cap : (found : Option SlidingWindow) (d : ℕ) → CapFound found → Cap (or_new found d)
unfolding new_sliding_window
or_new-Cap none d c = (refl, omega arith)
or_new-Cap (some w) d c = c

add_at-Cap : (w : SlidingWindow) (t : ℕ) → Cap w → Cap (add_at w t)
add_at-Cap w t c =
    let settings = add_at_settings w t in
    let bounds = add_at_bounds w t (omega (arith, c.0)) (omega (arith, c.0, c.1)) in
    (settings.0 ∙ c.0, omega (arith, bounds.1, c.0))

-- Adding an event leaves every window with at most as many events as a window may hold.
pub add_event_at-Capped :
    (wm : WindowManager) (name : String) (d t : ℕ)
    → Capped wm.windows
    → Capped (add_event_at wm name d t).windows
unfolding add_event_at record_event evict_if_needed
add_event_at-Capped wm name d t c =
    let w = or_new (lookup name wm.windows) d in
    let cap =
      add_at-Cap w t (or_new-Cap (lookup name wm.windows) d (lookup-Capped name wm.windows c)) in
    evict_loop-Capped _ (record_event wm name d t)
      (insert-Capped name (add_at w t) wm.windows cap c)

-- So does counting, and no count exceeds that number.
pub count-Capped :
    (wm : WindowManager) (name : String) (now : ℕ)
    → Capped wm.windows
    → Capped (count wm name now).0.windows × ((count wm name now).1 ≤ max_events_per_rule)
unfolding count
count-Capped wm name now c = elim (Option-cases (lookup name wm.windows)) [
  | inl missing ↦ rw (count, missing) (c, omega arith)
  | inr (w, found) ↦
      let cap = subst CapFound found (lookup-Capped name wm.windows c) in
      let b = count_at_bounds w now in
      rw (count, found)
        (
          insert-Capped name (count_at w now).0 wm.windows
              (b.2 ∙ cap.0, omega (arith, b.0, b.1, cap.1)) c,
          omega (arith, b.1, cap.1),
        )
]
