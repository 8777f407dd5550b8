-- ===== src/Storage/LogBuffer/Tests.antt =====
-- Runs of the log buffer on small inputs, and the theorems at them.
use mathlib.Core.List.{Sublist}
use blazelog.Base.{ℕ, ◌+◌, ◌≤◌, ◌≡◌, refl, Bool, true, false, none, List, [], ◌∷◌, ◌++◌, length}
use blazelog.Storage.LogBuffer.{LogBuffer, admit, add_batch}
use blazelog.Storage.LogBuffer.Bounds.{admit-take_last}
use blazelog.Storage.LogBuffer.Order.{Call, adds, run, run_in_order}
use blazelog.Storage.LogBuffer.Interleaving.{System, Step, Reach, total, launch, Reach-conserves}

abbrev small : LogBuffer ℕ
small = record {
  batch_size = 3;
  flush_interval = 1;
  max_size = 4;
  buffer = 1 ∷ 2 ∷ [];
  stopped = false;
  dropped = 0;
  flushed = 0;
  inserted = 0;
  flush_err = none;
}

abbrev nothing : LogBuffer ℕ
nothing = record small { buffer = [] }

overflow_runs :
    ((admit small (3 ∷ 4 ∷ 5 ∷ [])).buffer ≡ 2 ∷ 3 ∷ 4 ∷ 5 ∷ [])
    × ((admit small (3 ∷ 4 ∷ 5 ∷ 6 ∷ 7 ∷ [])).buffer ≡ 4 ∷ 5 ∷ 6 ∷ 7 ∷ [])
    × ((admit small (3 ∷ 4 ∷ 5 ∷ 6 ∷ 7 ∷ [])).dropped ≡ 3)
unfolding admit
overflow_runs = (refl, refl, refl)

admit-take_last_example :
    ((admit small (3 ∷ 4 ∷ 5 ∷ [])).buffer ≡ 2 ∷ 3 ∷ 4 ∷ 5 ∷ [])
    × ((admit small (3 ∷ 4 ∷ 5 ∷ [])).dropped ≡ 1)
admit-take_last_example = admit-take_last small (3 ∷ 4 ∷ 5 ∷ [])

abbrev calls : List (Bool × Call ℕ)
calls = (false, adds (1 ∷ 2 ∷ 3 ∷ [])) ∷ (true, adds (4 ∷ 5 ∷ [])) ∷ (true, adds (6 ∷ [])) ∷ []

scenario :
    let r = run (record { buf = nothing; taken = []; stored = [] }) calls in
    (r.stored ≡ 2 ∷ 3 ∷ 4 ∷ 5 ∷ []) × (r.buf.buffer ≡ 6 ∷ []) × (r.buf.dropped ≡ 1)
unfolding run add_batch
scenario = (refl, refl, refl)

run_in_order_example :
    let r = run (record { buf = nothing; taken = []; stored = [] }) calls in
    Sublist (r.stored ++ r.buf.buffer) r.taken
run_in_order_example = run_in_order nothing calls refl refl

abbrev start : System ℕ
start = launch (record { batch_size = 2; flush_interval = 1; max_size = 2 })

abbrev added : System ℕ
added = record start { buf = admit start.buf (1 ∷ 2 ∷ 3 ∷ []); accepted = 3 }

Reach-conserves_example :
    (length added.buf.buffer ≤ added.buf.max_size)
    × (added.accepted
        ≡ added.buf.inserted + added.buf.dropped + length added.buf.buffer + total added.in_flight)
    × (length added.stored ≡ added.buf.inserted)
Reach-conserves_example =
    Reach-conserves (record { batch_size = 2; flush_interval = 1; max_size = 2 })
      (Reach.next Reach.here (Step.adds (1 ∷ 2 ∷ 3 ∷ []) refl))
