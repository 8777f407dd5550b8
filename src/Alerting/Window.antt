-- ===== src/Alerting/Window.antt =====
-- internal/alerting/window.go, `SlidingWindow`. A time is the number of nanoseconds since Go's zero
-- time and a duration a number of nanoseconds, so a cutoff before the zero time is 0, which no
-- event lies before either.
pub mod Search
pub mod Count
use blazelog.Base.{
  ℕ, zero, suc, ◌+◌, ◌-◌, ◌/◌, Bool, List, [], ◌∷◌, ◌++◌, length, drop, ltb, if◌then◌else◌, get_or,
}

abbrev pub max_events_per_rule : ℕ
max_events_per_rule = 10_000

pub record SlidingWindow : Type 0 where
  pub window : ℕ
  pub events : List ℕ
  pub max_size : ℕ

unfoldable pub new_sliding_window : ℕ → SlidingWindow
new_sliding_window window = record { window = window; events = []; max_size = max_events_per_rule }

-- The `for` loop of `pruneOldLocked`; the rounds left are the first argument.
search : ℕ → List ℕ → ℕ → ℕ → ℕ → ℕ
search zero events cutoff left right = left
search (suc rounds) events cutoff left right =
    let mid = (left + right) / 2 in
    let upper = search rounds events cutoff (mid + 1) right in
    let lower = search rounds events cutoff left mid in
    if ltb left right then if ltb (get_or events mid 0) cutoff then upper else lower else left

unfoldable pub prune_old : SlidingWindow → ℕ → SlidingWindow
unfolding search
prune_old w now =
    let cutoff = now - w.window in
    let left = search (length w.events) w.events cutoff 0 (length w.events) in
    if ltb 0 left then record w { events = drop left w.events } else w

-- Appends, and keeps the newer half if there are too many events.
unfoldable pub push_event : SlidingWindow → ℕ → SlidingWindow
push_event w t =
    let events = w.events ++ t ∷ [] in
    if ltb w.max_size (length events)
    then record w { events = drop (length events / 2) events }
    else record w { events = events }

unfoldable pub add_at : SlidingWindow → ℕ → SlidingWindow
unfolding prune_old push_event
add_at w t = push_event (prune_old w t) t

unfoldable pub count_at : SlidingWindow → ℕ → SlidingWindow × ℕ
unfolding prune_old
count_at w t = let w' = prune_old w t in (w', length w'.events)

unfoldable pub reset : SlidingWindow → SlidingWindow
reset w = record w { events = [] }
