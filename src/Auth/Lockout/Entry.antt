-- ===== src/Auth/Lockout/Entry.antt =====
-- lockout.go, one key's entry: failures in a row, the lockout, and its end.
use blazelog.Base.{ℕ, ◌+◌, ◌≤◌, ◌<◌, ◌≡◌, true, false, arith, leb, if◌then◌else◌}
use blazelog.Auth.Lockout.{LockoutEntry, fail, entry_locked}

-- A locked entry has reached the threshold; one below it is not locked.
pub record EntryValid (threshold : ℕ) (e : LockoutEntry) : Type 0 where
  pub reached : 0 < e.locked_at → threshold ≤ e.failures

pub fail-EntryValid :
    (threshold duration : ℕ) (e : LockoutEntry) (now₁ now₂ now₃ : ℕ)
    → EntryValid threshold e
    → EntryValid threshold (fail threshold duration e now₁ now₂ now₃).0
unfolding fail
fail-EntryValid threshold duration e now₁ now₂ now₃ v = ground arith

-- The answer of `fail` is whether the entry is locked right after.
pub fail-entry_locked :
    (threshold duration : ℕ) (e : LockoutEntry) (now₁ now₂ now₃ : ℕ)
    → EntryValid threshold e
    → now₁ ≤ now₂
    → now₂ ≤ now₃
    → 0 < now₃
    → let (e', locked) = fail threshold duration e now₁ now₂ now₃ in entry_locked e' now₁ ≡ locked
unfolding fail entry_locked
fail-entry_locked threshold duration e now₁ now₂ now₃ v h k p = ground arith

-- A failure that locks an entry which was not locked does so from then on for the whole duration,
-- and no longer.
pub fail_lasts :
    (threshold duration : ℕ) (e : LockoutEntry) (now₁ now₂ now₃ now : ℕ)
    → now₁ ≤ now₂
    → now₂ ≤ now₃
    → 0 < now₃
    → entry_locked e now₁ ≡ false
    → (fail threshold duration e now₁ now₂ now₃).1 ≡ true
    → entry_locked (fail threshold duration e now₁ now₂ now₃).0 now ≡ leb now (now₃ + duration)
unfolding fail entry_locked
fail_lasts threshold duration e now₁ now₂ now₃ now h k p free answer = ground arith

-- Failures below the threshold on an unlocked entry are counted and lock nothing.
pub fail_counts :
    (threshold duration : ℕ) (e : LockoutEntry) (now₁ now₂ now₃ : ℕ)
    → e.locked_at ≡ 0
    → fail threshold duration e now₁ now₂ now₃ ≡ (
        if leb threshold (e.failures + 1)
        then (
          record { failures = e.failures + 1; locked_at = now₃; expires_at = now₃ + duration },
          true,
        )
        else (record e { failures = e.failures + 1 }, false))
unfolding fail
fail_counts threshold duration e now₁ now₂ now₃ h = ground arith
