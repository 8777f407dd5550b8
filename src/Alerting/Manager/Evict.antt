-- ===== src/Alerting/Manager/Evict.antt =====
-- window.go, `evictIfNeeded`: the rounds suffice, and what the loop leaves.
use blazelog.Base.{
  ℕ, zero, suc, ◌+◌, ◌-◌, ◌≤◌, ◌<◌, ◌≡◌, ◌⊎◌, inl, inr, refl, ap, ◌∙◌, String, Option, none, some,
  List, [], ◌∷◌, arith, length, drop, get_elem?, set, ltb, Bool-cases, length-drop, ltb→le,
}
use blazelog.Alerting.Window.{SlidingWindow}
use blazelog.Alerting.Manager.{
  WindowManager, Windows, max_total_events, older, oldest, evict_count, evict_from, evict_once,
  evict_loop, evict_if_needed,
}

-- How many events the windows really hold.
abbrev pub held : Windows → ℕ
held [] = 0
held ((_, w) ∷ m) = length w.events + held m

held-set :
    (m : Windows) (i : ℕ) (k : String) (w w' : SlidingWindow)
    → get_elem? m i ≡ some (k, w)
    → held (set m i (k, w')) + length w.events ≡ held m + length w'.events
held-set [] i k w w' h = cc
held-set (e ∷ m) zero k w w' h = ground arith
held-set (e ∷ m) (suc i) k w w' h = omega (arith, held-set m i k w w' h)

-- What the inner loop makes of a best window so far: it keeps it, and then there was one or no
-- event is left; or it finds a window that starts with an event.
abbrev Outcome : Option (ℕ × ℕ) → ℕ → Windows → Option (ℕ × ℕ) → Type 0
Outcome best i m found =
    ((found ≡ best) × ((best ≡ none) → held m ≡ 0))
    ⊎ ((j t : ℕ) × (k : String) × (w : SlidingWindow) × (r : List ℕ) × (found ≡ some (i + j, t))
        × (get_elem? m j ≡ some (k, w))
        × (w.events ≡ t ∷ r))

older-cases :
    (best : Option (ℕ × ℕ)) (i : ℕ) (ts : List ℕ)
    → ((older best i ts ≡ best) × ((best ≡ none) → ts ≡ []))
      ⊎ ((t : ℕ) × (r : List ℕ) × (ts ≡ t ∷ r) × (older best i ts ≡ some (i, t)))
older-cases best i [] = inl (refl, λ h. refl)
older-cases none i (t ∷ r) = inr (t, r, refl, refl)
older-cases (some (j, s)) i (t ∷ r) = elim (Bool-cases (ltb t s)) [
  | inl lt ↦ inr (t, r, refl, rw lt)
  | inr ge ↦ inl (rw ge, λ h. cc)
]

oldest-Outcome : (best : Option (ℕ × ℕ)) (i : ℕ) (m : Windows) → Outcome best i m (oldest best i m)
unfolding oldest
oldest-Outcome best i [] = inl (refl, λ h. refl)
oldest-Outcome best i ((k, w) ∷ m) = elim (oldest-Outcome (older best i w.events) (i + 1) m) [
  | inr (j, t, k', w', r, e, g, f) ↦
      inr (suc j, t, k', w', r, e ∙ ap (λ n. some (n, t)) (omega arith), g, f)
  | inl (e, z) ↦ elim (older-cases best i w.events) [
    | inl (same, empty) ↦ inl (e ∙ same, λ h. omega (arith, ap length (empty h), z (same ∙ h)))
    | inr (t, r, f, new) ↦
        inr (zero, t, k, w, r, e ∙ new ∙ ap (λ n. some (n, t)) (omega arith), refl, f)
  ]
]

evict_count_bounds :
    (w : SlidingWindow) (t : ℕ) (r : List ℕ)
    → w.events ≡ t ∷ r
    → (0 < evict_count w) × (evict_count w ≤ length w.events)
evict_count_bounds w t r e =
    let n : length w.events ≡ suc (length r) = ap length e in (ground arith, ground arith)

-- One round takes as many events out of the windows as it takes off the count, and at least one;
-- it breaks only if no window holds an event.
evict_once-cases :
    (wm : WindowManager)
    → ((evict_once wm ≡ none) × (held wm.windows ≡ 0))
      ⊎ ((wm' : WindowManager) × (n : ℕ) × (evict_once wm ≡ some wm')
          × (0 < n)
          × (held wm'.windows + n ≡ held wm.windows)
          × (wm'.total_events ≡ wm.total_events - n))
unfolding evict_once
evict_once-cases wm = elim (oldest-Outcome none 0 wm.windows) [
  | inl (e, z) ↦ inl (rw e, z refl)
  | inr (j, t, k, w, r, e, g, f) ↦
      let e' : oldest none 0 wm.windows ≡ some (j, t) = e ∙ ap (λ n. some (n, t)) (omega arith) in
      inr (
        record {
          windows = set wm.windows j (k, record w { events = drop (evict_count w) w.events });
          total_events = wm.total_events - evict_count w;
        },
        evict_count w,
        rw (e', evict_from) (rw g),
        (evict_count_bounds w t r f).0,
        omega (
          arith,
          evict_count_bounds w t r f,
          length-drop (evict_count w) w.events,
          held-set wm.windows j k w (record w { events = drop (evict_count w) w.events }) g,
        ),
        refl,
      )
]

record Evicted (wm wm' : WindowManager) : Type 0 where
  fewer : held wm'.windows ≤ held wm.windows
  in_step : held wm'.windows + wm.total_events ≡ held wm.windows + wm'.total_events
  done : (wm'.total_events ≤ max_total_events) ⊎ (held wm'.windows ≡ 0)

evict_loop-Evicted :
    (rounds : ℕ) (wm : WindowManager)
    → held wm.windows ≤ wm.total_events
    → wm.total_events ≤ rounds
    → Evicted wm (evict_loop rounds wm)
unfolding evict_loop
evict_loop-Evicted zero wm h k = omega arith
evict_loop-Evicted (suc rounds) wm h k = elim (Bool-cases (ltb max_total_events wm.total_events)) [
  | inr low ↦ rw (low, evict_loop) (omega (arith, ltb→le max_total_events wm.total_events low))
  | inl high ↦ elim (evict_once-cases wm) [
    | inl (e, z) ↦ rw (high, evict_loop) (rw (e, evict_loop) (omega arith))
    | inr (wm', n, e, p, hn, tn) ↦
        let v = evict_loop-Evicted rounds wm' (omega arith) (omega arith) in
        rw (high, evict_loop) (rw (e, evict_loop) (omega (arith, v)))
  ]
]

-- Where the count is not below what the windows hold, evicting takes the same number off both,
-- and it ends: with the count at most `max_total_events`, or with no event in any window.
pub evict_if_needed-done :
    (wm : WindowManager)
    → held wm.windows ≤ wm.total_events
    → let wm' = evict_if_needed wm in
      (held wm'.windows + wm.total_events ≡ held wm.windows + wm'.total_events)
      × (held wm'.windows ≤ held wm.windows)
      × ((wm'.total_events ≤ max_total_events) ⊎ (held wm'.windows ≡ 0))
unfolding evict_if_needed
evict_if_needed-done wm h =
    let v = evict_loop-Evicted wm.total_events wm h (omega arith) in (v.in_step, v.fewer, v.done)
