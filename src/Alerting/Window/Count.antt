-- ===== src/Alerting/Window/Count.antt =====
-- window.go: how many events a window holds, and how that compares with the events added.
use blazelog.Base.{
  ℕ, ◌+◌, ◌-◌, ◌/◌, ◌≤◌, ◌<◌, ◌≡◌, refl, ap, ◌∙◌, List, [], ◌∷◌, ◌++◌, arith, length, drop,
  length-append, length-drop, append-nil, append_assoc,
}
use blazelog.Alerting.Window.{
  max_events_per_rule, new_sliding_window, SlidingWindow, prune_old, push_event, add_at, count_at,
}
use blazelog.Base.Times.{
  Above, AtMost, in_window, in_window-append, in_window-in_window, in_window_last, Above-in_window,
  Above-snoc, AtMost-snoc, AtMost-mono,
}
use blazelog.Alerting.Window.Search.{prune_old-in_window, prune_old-drop}

push_event_settings :
    (w : SlidingWindow) (t : ℕ)
    → ((push_event w t).max_size ≡ w.max_size)
      × ((push_event w t).window ≡ w.window)
      × (length (push_event w t).events ≤ length w.events + 1)
unfolding push_event
push_event_settings w t =
    let n = length-append w.events (t ∷ []) in
    let m = length-drop (length (w.events ++ t ∷ []) / 2) (w.events ++ t ∷ []) in
    (ground arith, ground arith, ground arith)

pub add_at_settings :
    (w : SlidingWindow) (t : ℕ)
    → ((add_at w t).max_size ≡ w.max_size)
      × ((add_at w t).window ≡ w.window)
      × (length (add_at w t).events ≤ length w.events + 1)
unfolding add_at
add_at_settings w t =
    let (k, le, e) = prune_old-drop w t in
    let b = push_event_settings (record w { events = drop k w.events }) t in
    let shorter = length-drop k w.events in rw e (b.0, b.1, omega arith)

push_event_bounds :
    (w : SlidingWindow) (t : ℕ)
    → 0 < w.max_size
    → length w.events ≤ w.max_size
    → (0 < length (push_event w t).events) × (length (push_event w t).events ≤ w.max_size)
unfolding push_event
push_event_bounds w t h fits =
    let n = length-append w.events (t ∷ []) in
    let m = length-drop (length (w.events ++ t ∷ []) / 2) (w.events ++ t ∷ []) in
    (ground arith, ground arith)

-- From a window with at most `max_size` events, at any time, adding one leaves at least one event
-- and again at most `max_size`.
pub add_at_bounds :
    (w : SlidingWindow) (t : ℕ)
    → 0 < w.max_size
    → length w.events ≤ w.max_size
    → (0 < length (add_at w t).events) × (length (add_at w t).events ≤ w.max_size)
unfolding add_at
add_at_bounds w t h m =
    let (k, le, e) = prune_old-drop w t in
    let shorter = length-drop k w.events in
    rw e (push_event_bounds (record w { events = drop k w.events }) t h (omega arith))

pub count_at_bounds :
    (w : SlidingWindow) (t : ℕ)
    → ((count_at w t).1 ≡ length (count_at w t).0.events)
      × ((count_at w t).1 ≤ length w.events)
      × ((count_at w t).0.max_size ≡ w.max_size)
unfolding count_at
count_at_bounds w t =
    let (k, le, e) = prune_old-drop w t in rw e (refl, omega (arith, length-drop k w.events), refl)

-- The tests below run on a window that has seen the events `h`, the last call being at `now`.
record Tracks (w : SlidingWindow) (now : ℕ) (h : List ℕ) : Type 0 where
  sorted : Above 0 h
  exact : w.events ≡ in_window (now - w.window) h

prune-Tracks :
    (w : SlidingWindow) (now t : ℕ) (h : List ℕ)
    → Tracks w now h
    → now ≤ t
    → ((prune_old w t).events ≡ in_window (t - w.window) h)
      × ((prune_old w t).window ≡ w.window)
      × ((prune_old w t).max_size ≡ w.max_size)
prune-Tracks w now t h v later = (
  prune_old-in_window w t 0 (rw v.exact (Above-in_window 0 _ h v.sorted))
      ∙ ap (in_window (t - w.window)) v.exact
      ∙ in_window-in_window (now - w.window) (t - w.window) h (omega arith),
  ap (λ x. x.window) (prune_old-drop w t).2,
  ap (λ x. x.max_size) (prune_old-drop w t).2,
)

-- What the tests see of `h`, then `ts`: no window of the given length ever holds more than
-- `max_size` of the events.
abbrev pub NeverFull : ℕ → ℕ → List ℕ → List ℕ → Type 0
NeverFull max_size window h [] = Unit {0}
NeverFull max_size window h (t ∷ ts) =
    (length (in_window (t - window) (h ++ t ∷ [])) ≤ max_size)
    × NeverFull max_size window (h ++ t ∷ []) ts

pub add_all : SlidingWindow → List ℕ → SlidingWindow
add_all w [] = w
add_all w (t ∷ ts) = add_all (add_at w t) ts

push_event_room :
    (w : SlidingWindow) (t : ℕ)
    → length (w.events ++ t ∷ []) ≤ w.max_size
    → push_event w t ≡ record w { events = w.events ++ t ∷ [] }
unfolding push_event
push_event_room w t h = ground arith

add-Tracks :
    (w : SlidingWindow) (now t : ℕ) (h : List ℕ)
    → Tracks w now h
    → AtMost now h
    → now ≤ t
    → length (in_window (t - w.window) (h ++ t ∷ [])) ≤ w.max_size
    → Tracks (add_at w t) t (h ++ t ∷ [])
      × ((add_at w t).window ≡ w.window)
      × ((add_at w t).max_size ≡ w.max_size)
unfolding add_at
add-Tracks w now t h v recent later room =
    let (e, f, g) = prune-Tracks w now t h v later in
    let joined : (prune_old w t).events ++ t ∷ [] ≡ in_window (t - w.window) (h ++ t ∷ []) =
      cc (e, in_window-append (t - w.window) h (t ∷ []), in_window_last t w.window) in
    let pushed = push_event_room (prune_old w t) t (rw (joined, g) room) in
    rw pushed (
      record {
        sorted = Above-snoc 0 t h (omega arith) v.sorted (AtMost-mono now t h later recent);
        exact = rw f joined;
      },
      f,
      g,
    )

add_all-Tracks :
    (w : SlidingWindow) (now last : ℕ) (h ts : List ℕ)
    → Tracks w now h
    → AtMost now h
    → Above now ts
    → AtMost last ts
    → now ≤ last
    → NeverFull w.max_size w.window h ts
    → (m : ℕ) × (m ≤ last) × Tracks (add_all w ts) m (h ++ ts) × ((add_all w ts).window ≡ w.window)
unfolding add_all
add_all-Tracks w now last h [] v recent a b le n = (now, le, rw (append-nil h) v, refl)
add_all-Tracks w now last h (t ∷ ts) v recent a b le n =
    let (v', f, g) = add-Tracks w now t h v recent a.0 n.0 in
    let (m, before, tracks, same) =
      add_all-Tracks (add_at w t) t last (h ++ t ∷ []) ts v' (AtMost-snoc now t h a.0 recent) a.1
        b.1 b.0 (rw (f, g) n.1) in
    (m, before, rw (append_assoc h (t ∷ []) ts) at tracks, same ∙ f)

-- After events at rising times, none of which filled the window, `CountAt` at a later time returns
-- exactly how many of all events added lie in the window that ends then.
pub count_exact :
    (window now : ℕ) (ts : List ℕ)
    → Above 0 ts
    → AtMost now ts
    → NeverFull max_events_per_rule window [] ts
    → (count_at (add_all (new_sliding_window window) ts) now).1
      ≡ length (in_window (now - window) ts)
unfolding count_at new_sliding_window
count_exact window now ts a b n =
    let (m, before, tracks, same) =
      add_all-Tracks (new_sliding_window window) 0 now [] ts (record { sorted = tt; exact = refl })
        tt a b (omega arith) n in
    ap length (prune-Tracks _ m now ts tracks before).0
    ∙ ap (λ d. length (in_window (now - d) ts)) same
