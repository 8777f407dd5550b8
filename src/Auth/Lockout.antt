-- ===== src/Auth/Lockout.antt =====
-- internal/api/auth/lockout.go. A time is the number of nanoseconds since Go's zero time, so
-- `IsZero` is 0. `RecordFailure` reads the clock up to three times; each reading is an argument.
pub mod Entry
pub mod Keys
pub mod Threshold
mod Tests
use blazelog.Base.{
  ℕ, ◌+◌, ◌-◌, String, Bool, true, false, Option, none, some, List, [], ◌∷◌, ltb, leb, ◌==◌, not,
  ◌&&◌, ◌||◌, if◌then◌else◌,
}
use blazelog.Base.Dict.{lookup, insert, remove, keep}

pub record LockoutEntry : Type 0 where
  pub failures : ℕ
  pub locked_at : ℕ
  pub expires_at : ℕ

pub record LockoutTracker : Type 0 where
  pub entries : List (String × LockoutEntry)
  pub threshold : ℕ
  pub lockout_duration : ℕ

abbrev pub no_failures : LockoutEntry
no_failures = record { failures = 0; locked_at = 0; expires_at = 0 }

unfoldable pub new_lockout_tracker : ℕ → ℕ → LockoutTracker
new_lockout_tracker threshold duration = record {
  entries = [];
  threshold = threshold;
  lockout_duration = duration;
}

abbrev pub or_empty : Option LockoutEntry → LockoutEntry
or_empty none = no_failures
or_empty (some e) = e

-- The reset of an expired lockout, the count and the new lockout: `RecordFailure` below its first
-- return.
abbrev pub expire : LockoutEntry → ℕ → LockoutEntry
expire e now = if ltb 0 e.locked_at && ltb e.expires_at now then no_failures else e

abbrev pub punish : ℕ → ℕ → LockoutEntry → ℕ → LockoutEntry × Bool
punish threshold duration e now =
    let e' = record e { failures = e.failures + 1 } in
    if leb threshold e'.failures
    then (record e' { locked_at = now; expires_at = now + duration }, true)
    else (e', false)

-- `RecordFailure` on the key's entry; the three readings are of its first test, of its second test
-- and of the lockout.
pub fail : ℕ → ℕ → LockoutEntry → ℕ → ℕ → ℕ → LockoutEntry × Bool
fail threshold duration e now₁ now₂ now₃ =
    if ltb 0 e.locked_at && ltb now₁ e.expires_at
    then (e, true)
    else punish threshold duration (expire e now₂) now₃

unfoldable pub record_failure : LockoutTracker → String → ℕ → ℕ → ℕ → LockoutTracker × Bool
unfolding fail
record_failure t key now₁ now₂ now₃ =
    let (e, locked) =
      fail t.threshold t.lockout_duration (or_empty (lookup key t.entries)) now₁ now₂ now₃ in
    (record t { entries = insert key e t.entries }, locked)

unfoldable pub entry_locked : LockoutEntry → ℕ → Bool
entry_locked e now = not (e.locked_at == 0) && not (ltb e.expires_at now)

unfoldable pub is_locked : LockoutTracker → String → ℕ → Bool
unfolding entry_locked
is_locked t key now = elim (lookup key t.entries) [ none ↦ false | some e ↦ entry_locked e now ]

-- `time.Until` below 0 is answered by 0, as truncated subtraction does.
unfoldable pub remaining_lockout_time : LockoutTracker → String → ℕ → ℕ
remaining_lockout_time t key now = elim (lookup key t.entries) [
  | none ↦ 0
  | some e ↦ if e.locked_at == 0 then 0 else e.expires_at - now
]

unfoldable pub clear_failures : LockoutTracker → String → LockoutTracker
clear_failures t key = record t { entries = remove key t.entries }

-- What `cleanup` keeps.
abbrev pub lives : ℕ → LockoutEntry → Bool
lives now e = not (e.failures == 0 || (ltb 0 e.locked_at && ltb e.expires_at now))

unfoldable pub cleanup : LockoutTracker → ℕ → LockoutTracker
cleanup t now = record t { entries = keep (lives now) t.entries }
