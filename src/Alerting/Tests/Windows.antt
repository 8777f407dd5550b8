-- ===== src/Alerting/Tests/Windows.antt =====
-- Runs of window.go on small inputs, and the theorems at them.
use blazelog.Base.{ℕ, ◌+◌, ◌≤◌, ◌≡◌, ◌⊎◌, refl, sym, subst, List, [], ◌∷◌, arith}
use blazelog.Base.Dict.{lookup, insert}
use blazelog.Alerting.Window.{SlidingWindow, new_sliding_window, prune_old, add_at, count_at}
use blazelog.Alerting.Window.Count.{add_all, count_exact}
use blazelog.Alerting.Manager.{
  WindowManager, max_total_events, new_window_manager, get_or_create, add_event_at, evict_if_needed,
  count,
}
use blazelog.Alerting.Manager.Evict.{held, evict_if_needed-done}
use blazelog.Alerting.Manager.Accounts.{Op, add_event, counts, run, run_bounded}
use blazelog.Alerting.Manager.Drift.{
  emptied, late_rounds, late_rounds-surplus, count_drift, add_event_at_starved,
}

abbrev tiny : SlidingWindow
tiny = record { window = 10; events = 1 ∷ 5 ∷ 9 ∷ 14 ∷ []; max_size = 4 }

tiny_prunes : (prune_old tiny 17).events ≡ 9 ∷ 14 ∷ []
unfolding prune_old
tiny_prunes = refl

tiny_halves : (add_at tiny 11).events ≡ 9 ∷ 14 ∷ 11 ∷ []
unfolding add_at
tiny_halves = refl

abbrev times : List ℕ
times = 1 ∷ 5 ∷ 9 ∷ 14 ∷ []

count_exact_example : (count_at (add_all (new_sliding_window 10) times) 17).1 ≡ 2
count_exact_example = count_exact 10 17 times (omega arith) (omega arith) (omega arith)

abbrev one_rule : WindowManager
one_rule = record { windows = ("errors", tiny) ∷ []; total_events = 4 }

evict_if_needed-done_example :
    let wm' = evict_if_needed one_rule in
    (held wm'.windows + 4 ≡ 4 + wm'.total_events)
    × (held wm'.windows ≤ 4)
    × ((wm'.total_events ≤ max_total_events) ⊎ (held wm'.windows ≡ 0))
evict_if_needed-done_example = evict_if_needed-done one_rule (omega arith)

abbrev calls : List Op
calls = add_event "errors" 10 3 ∷ add_event "slow" 20 4 ∷ counts "errors" 30 ∷ []

run_bounded_example :
    let wm = run new_window_manager calls in
    (held wm.windows ≤ max_total_events) × (held wm.windows ≤ wm.total_events)
run_bounded_example = run_bounded calls

count_drift_example :
    let wm' = (count one_rule "errors" 17).0 in held wm'.windows + 4 ≡ wm'.total_events + 2
unfolding lookup
count_drift_example = count_drift one_rule "errors" 17 0 tiny refl (omega arith) refl

starts_empty : (get_or_create new_window_manager "errors" 10).0 ≡ emptied 0
unfolding get_or_create new_window_manager new_sliding_window lookup insert
starts_empty = refl

-- A hundred thousand late events, each counted after it has left its window.
unfoldable ahead : WindowManager
ahead = late_rounds 100_000 (emptied 0)

ahead_lem : ahead ≡ emptied 100_000
unfolding ahead
ahead_lem = late_rounds-surplus 100_000 (omega arith)

ahead_holds : (held ahead.windows ≡ 0) × (max_total_events ≤ ahead.total_events)
ahead_holds =
    subst (λ wm. (held wm.windows ≡ 0) × (max_total_events ≤ wm.total_events)) (sym ahead_lem)
      (refl, omega arith)

add_event_at_starved_example :
    let wm' = add_event_at ahead "errors" 10 17 in
    (held wm'.windows ≡ 0) × (wm'.total_events ≡ ahead.total_events)
add_event_at_starved_example = add_event_at_starved ahead "errors" 10 17 ahead_holds.0 ahead_holds.1
