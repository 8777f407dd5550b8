-- ===== src/Auth/Lockout/Tests.antt =====
-- Runs of the lockout tracker on small inputs, and the theorems at them.
use blazelog.Base.{◌≡◌, refl, true, List, [], ◌∷◌, arith}
use blazelog.Base.Dict.{lookup}
use blazelog.Auth.Lockout.{LockoutTracker, record_failure}
use blazelog.Auth.Lockout.Keys.{Valid, Call, records, clears, cleans}

abbrev strict : LockoutTracker
strict = record { entries = []; threshold = 2; lockout_duration = 10 }

strict-Valid : Valid strict
unfolding lookup
strict-Valid = record { positive = omega arith; distinct = tt; entries = λ key. omega arith }

abbrev once : LockoutTracker
once = record strict {
  entries = ("ann", record { failures = 1; locked_at = 0; expires_at = 0 }) ∷ [];
}

once_runs : (record_failure once "ann" 5 6 7).1 ≡ true
unfolding record_failure lookup
once_runs = refl

abbrev calls : List Call
calls =
    records "ann" 5 6 7 ∷ records "ann" 8 8 8 ∷ records "bob" 9 9 9 ∷ cleans 20 ∷ clears "bob" ∷ []
