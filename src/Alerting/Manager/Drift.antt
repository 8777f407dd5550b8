-- ===== src/Alerting/Manager/Drift.antt =====
-- window.go: `Count` prunes without telling `totalEvents`, and what follows from that.
use blazelog.Base.{
  ℕ, zero, suc, ◌+◌, ◌-◌, ◌≤◌, ◌≡◌, refl, ap, ◌∙◌, String, some, [], ◌∷◌, arith, length, le→ltb,
}
use blazelog.Base.Dict.{lookup, insert}
use blazelog.Alerting.Window.{SlidingWindow, count_at, prune_old, add_at}
use blazelog.Base.Times.{Above, in_window}
use blazelog.Alerting.Window.Search.{prune_old-in_window}
use blazelog.Alerting.Manager.{
  WindowManager, max_total_events, record_event, add_event_at, count, evict_loop, evict_if_needed,
}
use blazelog.Alerting.Manager.Evict.{held, evict_if_needed-done}
use blazelog.Alerting.Manager.Accounts.{held-insert_old, record_event-held}

-- `Count` on a window whose events are in order takes the stale events out of it and leaves
-- `totalEvents` as it was: the count is ahead by exactly the number of those events.
pub count_drift :
    (wm : WindowManager) (name : String) (now lo : ℕ) (w : SlidingWindow)
    → lookup name wm.windows ≡ some w
    → Above lo w.events
    → held wm.windows ≡ wm.total_events
    → let wm' = (count wm name now).0 in
      held wm'.windows + length w.events
      ≡ wm'.total_events + length (in_window (now - w.window) w.events)
unfolding count count_at
count_drift wm name now lo w e sorted exact =
    rw (e, count)
      (omega (
        arith,
        held-insert_old name wm.windows w (prune_old w now) e,
        ap length (prune_old-in_window w now lo sorted),
      ))

-- A late event, which is counted after it has left its window.
unfoldable pub late_round : WindowManager → WindowManager
late_round wm = (count (add_event_at wm "errors" 10 1) "errors" 100).0

unfoldable pub late_rounds : ℕ → WindowManager → WindowManager
late_rounds zero wm = wm
late_rounds (suc n) wm = late_round (late_rounds n wm)

evict_loop_low :
    (rounds : ℕ) (wm : WindowManager)
    → wm.total_events ≤ max_total_events
    → evict_loop rounds wm ≡ wm
unfolding evict_loop
evict_loop_low zero wm le = refl
evict_loop_low (suc rounds) wm le = rw (le→ltb _ _ le, evict_loop) refl

abbrev pub emptied : ℕ → WindowManager
emptied n = record {
  windows = ("errors", record { window = 10; events = []; max_size = 10_000 }) ∷ [];
  total_events = n;
}

abbrev one_event : ℕ → WindowManager
one_event n = record {
  windows = ("errors", record { window = 10; events = 1 ∷ []; max_size = 10_000 }) ∷ [];
  total_events = n;
}

late_round_lem : (n : ℕ) → suc n ≤ max_total_events → late_round (emptied n) ≡ emptied (suc n)
unfolding late_round add_event_at record_event evict_if_needed add_at lookup insert count count_at
    prune_old
late_round_lem n le =
    let added : add_event_at (emptied n) "errors" 10 1 ≡ one_event (suc n) =
      evict_loop_low (n + 1 - 0) (one_event (n + 1 - 0)) (omega (arith, le))
      ∙ ap one_event (omega arith) in
    ap (λ wm. (count wm "errors" 100).0) added

-- Each such round puts the count of all events one ahead of what the windows hold, up to the limit.
pub late_rounds-surplus : (n : ℕ) → n ≤ max_total_events → late_rounds n (emptied 0) ≡ emptied n
unfolding late_rounds
late_rounds-surplus zero le = refl
late_rounds-surplus (suc n) le =
    ap late_round (late_rounds-surplus n (omega arith)) ∙ late_round_lem n le

-- A manager whose count has reached the limit while no window holds an event stays so when an event
-- is added: the event is evicted at once, whatever its rule and its time.
pub add_event_at_starved :
    (wm : WindowManager) (name : String) (d t : ℕ)
    → held wm.windows ≡ 0
    → max_total_events ≤ wm.total_events
    → let wm' = add_event_at wm name d t in
      (held wm'.windows ≡ 0) × (wm'.total_events ≡ wm.total_events)
unfolding add_event_at
add_event_at_starved wm name d t empty above =
    let a = record_event-held wm name d t (omega arith) in
    let b = evict_if_needed-done (record_event wm name d t) (omega arith) in omega (arith, a, b)
