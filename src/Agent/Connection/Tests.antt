-- ===== src/Agent/Connection/Tests.antt =====
-- internal/agent/connmgr.go, with a few tries.
use blazelog.Base.{◌≡◌, refl, arith, true, false, some, List, [], ◌∷◌}
use blazelog.Agent.Connection.{
  connected, Manager, new_manager, Try, no_client, register_failed, succeeds, Round, established,
  retries_exceeded, connect, close,
}
use blazelog.Agent.Connection.Retries.{Over, connect_ends}
use blazelog.Agent.Connection.Changes.{connects, signalled, triggers, closes, run, Told, run-Told}
use blazelog.Agent.Connection.Closed.{connect_after_close}

abbrev round : Try → Round
round t = record { done_before = false; trial = t; done_waiting = false }

abbrev rounds : List Round
rounds = round (register_failed 1) ∷ round (succeeds 2 "agent") ∷ []

abbrev failing : List Round
failing = round no_client ∷ round (register_failed 1) ∷ []

connect_ends_example : Over (connect failing (new_manager 2)).0
unfolding new_manager
connect_ends_example = connect_ends failing (new_manager 2) (omega arith) (omega arith)

connect_runs :
    ((connect failing (new_manager 2)).0 ≡ retries_exceeded)
    × ((connect rounds (new_manager 2)).0 ≡ established)
unfolding connect new_manager
connect_runs = (refl, refl)

run-Told_example :
    Told (run (connects rounds ∷ triggers ∷ signalled failing ∷ closes ∷ []) (new_manager 2))
run-Told_example = run-Told (connects rounds ∷ triggers ∷ signalled failing ∷ closes ∷ []) 2

abbrev ended : Manager
ended = close (new_manager 2)

ended_connects : (connect rounds ended).0 ≡ established
unfolding connect close new_manager
ended_connects = refl

ended_is_closed : ended.closed ≡ true
unfolding close new_manager
ended_is_closed = refl

connect_after_close_example :
    let result = connect (round (succeeds 2 "agent") ∷ []) (close (new_manager 2)) in
    (result.0 ≡ established)
    × (result.1.client ≡ some 2)
    × (result.1.state ≡ connected)
    × (result.1.shut ≡ (close (new_manager 2)).shut)
    × (close result.1 ≡ result.1)
connect_after_close_example = connect_after_close 2 "agent" false [] (new_manager 2)
