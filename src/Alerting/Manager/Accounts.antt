-- ===== src/Alerting/Manager/Accounts.antt =====
-- window.go, `WindowManager`: `totalEvents` against the events that the windows hold.
use blazelog.Base.{
  ℕ, ◌+◌, ◌≤◌, ◌≡◌, inl, inr, refl, String, none, some, List, [], ◌∷◌, arith, length, Option-cases,
}
use blazelog.Base.Dict.{lookup, insert, remove}
use blazelog.Alerting.Window.{SlidingWindow, new_sliding_window, add_at, count_at, reset}
use blazelog.Alerting.Window.Count.{count_at_bounds}
use blazelog.Alerting.Manager.{
  WindowManager, Windows, max_total_events, new_window_manager, get_or_create, record_event,
  add_event_at, reset_rule, delete_rule, reset_each, reset_all, delete_all, count,
}
use blazelog.Alerting.Manager.Evict.{held, evict_if_needed-done}

pub held-insert_old :
    (name : String) (m : Windows) (w w' : SlidingWindow)
    → lookup name m ≡ some w
    → held (insert name w' m) + length w.events ≡ held m + length w'.events
unfolding lookup insert
held-insert_old name [] w w' h = cc
held-insert_old name ((k, v) ∷ m) w w' h = ground (arith, held-insert_old name m w w')

held-insert_new :
    (name : String) (m : Windows) (w' : SlidingWindow)
    → lookup name m ≡ none
    → held (insert name w' m) ≡ held m + length w'.events
unfolding lookup insert
held-insert_new name [] w' h = omega arith
held-insert_new name ((k, v) ∷ m) w' h = ground (arith, held-insert_new name m w')

held-remove-le : (name : String) (m : Windows) → held (remove name m) ≤ held m
unfolding remove
held-remove-le name [] = omega arith
held-remove-le name ((k, v) ∷ m) = ground (arith, held-remove-le name m)

held-remove :
    (name : String) (m : Windows) (w : SlidingWindow)
    → lookup name m ≡ some w
    → held (remove name m) + length w.events ≤ held m
unfolding lookup remove
held-remove name [] w h = cc
held-remove name ((k, v) ∷ m) w h = ground (arith, held-remove name m w, held-remove-le name m)

held-reset_each : (m : Windows) → held (reset_each m) ≡ 0
unfolding reset_each reset
held-reset_each [] = refl
held-reset_each ((k, w) ∷ m) = omega (arith, held-reset_each m)

-- What `AddEventAt` does to the two numbers before it evicts.
pub record_event-held :
    (wm : WindowManager) (name : String) (d t : ℕ)
    → held wm.windows ≤ wm.total_events
    → held (record_event wm name d t).windows + wm.total_events
      ≡ held wm.windows + (record_event wm name d t).total_events
unfolding record_event new_sliding_window
record_event-held wm name d t h = elim (Option-cases (lookup name wm.windows)) [
  | inl e ↦
      rw e (omega (arith, held-insert_new name wm.windows (add_at (new_sliding_window d) t) e))
  | inr (w, e) ↦ rw e (omega (arith, held-insert_old name wm.windows w (add_at w t) e))
]

-- Where the count is not below what the windows hold, that stays so over an added event, the two
-- move by the same number, and afterwards the windows hold at most `max_total_events`.
add_event_at-held :
    (wm : WindowManager) (name : String) (d t : ℕ)
    → held wm.windows ≤ wm.total_events
    → let wm' = add_event_at wm name d t in
      (held wm'.windows + wm.total_events ≡ held wm.windows + wm'.total_events)
      × (held wm'.windows ≤ wm'.total_events)
      × (held wm'.windows ≤ max_total_events)
unfolding add_event_at
add_event_at-held wm name d t h =
    let a = record_event-held wm name d t h in
    let b = evict_if_needed-done (record_event wm name d t) (omega arith) in omega (arith, a, b)

-- The calls that change the manager.
pub data Op : Type 0 where
  add_event : String → ℕ → ℕ → Op
  counts : String → ℕ → Op
  creates : String → ℕ → Op
  resets deletes : String → Op
  resets_all deletes_all : Op

pub apply : WindowManager → Op → WindowManager
apply wm (add_event name d t) = add_event_at wm name d t
apply wm (counts name now) = (count wm name now).0
apply wm (creates name d) = (get_or_create wm name d).0
apply wm (resets name) = reset_rule wm name
apply wm (deletes name) = delete_rule wm name
apply wm resets_all = reset_all wm
apply wm deletes_all = delete_all wm

pub run : WindowManager → List Op → WindowManager
run wm [] = wm
run wm (op ∷ ops) = run (apply wm op) ops

record Covered (wm : WindowManager) : Type 0 where
  covered : held wm.windows ≤ wm.total_events
  bounded : held wm.windows ≤ max_total_events

count-held :
    (wm : WindowManager) (name : String) (now : ℕ)
    → (held (count wm name now).0.windows ≤ held wm.windows)
      × ((count wm name now).0.total_events ≡ wm.total_events)
unfolding count
count-held wm name now = elim (Option-cases (lookup name wm.windows)) [
  | inl e ↦ rw (e, count) (omega arith, refl)
  | inr (w, e) ↦
      rw (e, count)
        (
          omega (
            arith,
            held-insert_old name wm.windows w (count_at w now).0 e,
            count_at_bounds w now,
          ),
          refl,
        )
]

reset_rule-Covered :
    (wm : WindowManager) (name : String) → Covered wm → Covered (reset_rule wm name)
unfolding reset_rule reset
reset_rule-Covered wm name v = elim (Option-cases (lookup name wm.windows)) [
  | inl e ↦ rw (e, reset_rule) v
  | inr (w, e) ↦ rw (e, reset_rule) (omega (arith, held-insert_old name wm.windows w (reset w) e))
]

delete_rule-Covered :
    (wm : WindowManager) (name : String) → Covered wm → Covered (delete_rule wm name)
unfolding delete_rule
delete_rule-Covered wm name v = elim (Option-cases (lookup name wm.windows)) [
  | inl e ↦ rw (e, delete_rule) v
  | inr (w, e) ↦ rw (e, delete_rule) (omega (arith, held-remove name wm.windows w e))
]

get_or_create-Covered :
    (wm : WindowManager) (name : String) (d : ℕ) → Covered wm → Covered (get_or_create wm name d).0
unfolding get_or_create new_sliding_window
get_or_create-Covered wm name d v = elim (Option-cases (lookup name wm.windows)) [
  | inl e ↦
      rw (e, get_or_create)
        (omega (arith, held-insert_new name wm.windows (new_sliding_window d) e))
  | inr (w, e) ↦ rw (e, get_or_create) v
]

apply-Covered : (wm : WindowManager) (op : Op) → Covered wm → Covered (apply wm op)
unfolding apply reset_all delete_all
apply-Covered wm (add_event name d t) v = omega (arith, add_event_at-held wm name d t v.covered)
apply-Covered wm (counts name now) v = omega (arith, count-held wm name now)
apply-Covered wm (creates name d) v = get_or_create-Covered wm name d v
apply-Covered wm (resets name) v = reset_rule-Covered wm name v
apply-Covered wm (deletes name) v = delete_rule-Covered wm name v
apply-Covered wm resets_all v = omega (arith, held-reset_each wm.windows)
apply-Covered wm deletes_all v = omega arith

run-Covered : (wm : WindowManager) (ops : List Op) → Covered wm → Covered (run wm ops)
unfolding run
run-Covered wm [] v = v
run-Covered wm (op ∷ ops) v = run-Covered (apply wm op) ops (apply-Covered wm op v)

-- After any calls on a new manager, at any times, the windows hold together at most
-- `max_total_events` events, and `totalEvents` is never below what they hold.
pub run_bounded :
    (ops : List Op)
    → let wm = run new_window_manager ops in
      (held wm.windows ≤ max_total_events) × (held wm.windows ≤ wm.total_events)
unfolding new_window_manager
run_bounded ops = let v = run-Covered new_window_manager ops (omega arith) in (v.bounded, v.covered)
