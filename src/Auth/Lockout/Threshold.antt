-- ===== src/Auth/Lockout/Threshold.antt =====
-- lockout.go: failures in a row, up to the lockout.
use blazelog.Base.{
  ℕ, ◌+◌, ◌<◌, ◌≡◌, refl, ap, ◌∙◌, String, false, List, [], ◌∷◌, arith, length, leb,
}
use blazelog.Base.Dict.{str_eq_refl}
use blazelog.Auth.Lockout.{LockoutTracker, no_failures, record_failure, entry_locked, is_locked}
use blazelog.Auth.Lockout.Entry.{fail_counts}
use blazelog.Auth.Lockout.Keys.{entry_of, is_locked-entry_of, entry_of-record_failure}

-- The failures of one key, one after the other.
unfoldable pub fail_times : LockoutTracker → String → List (ℕ × ℕ × ℕ) → LockoutTracker
fail_times t key [] = t
fail_times t key ((now₁, now₂, now₃) ∷ rest) =
    fail_times (record_failure t key now₁ now₂ now₃).0 key rest

pub record_failure-threshold :
    (t : LockoutTracker) (key : String) (now₁ now₂ now₃ : ℕ)
    → (record_failure t key now₁ now₂ now₃).0.threshold ≡ t.threshold
unfolding record_failure
record_failure-threshold t key now₁ now₂ now₃ = refl

-- A failure below the threshold is counted and locks nothing.
pub record_failure_below :
    (t : LockoutTracker) (key : String) (now₁ now₂ now₃ : ℕ)
    → (entry_of t key).locked_at ≡ 0
    → (entry_of t key).failures + 1 < t.threshold
    → entry_of (record_failure t key now₁ now₂ now₃).0 key
      ≡ record (entry_of t key) { failures = (entry_of t key).failures + 1 }
record_failure_below t key now₁ now₂ now₃ h le =
    entry_of-record_failure t key key now₁ now₂ now₃
    ∙ rw (str_eq_refl key) (
        ap (λ r. r.0) (fail_counts t.threshold t.lockout_duration (entry_of t key) now₁ now₂ now₃ h)
        ∙ ground arith)

fail_times-entry_of :
    (ts : List (ℕ × ℕ × ℕ)) (t : LockoutTracker) (key : String)
    → (entry_of t key).locked_at ≡ 0
    → (entry_of t key).failures + length ts < t.threshold
    → ((entry_of (fail_times t key ts) key).locked_at ≡ 0)
      × ((entry_of (fail_times t key ts) key).failures ≡ (entry_of t key).failures + length ts)
      × ((fail_times t key ts).threshold ≡ t.threshold)
unfolding fail_times
fail_times-entry_of [] t key h le = (h, omega arith, refl)
fail_times-entry_of ((now₁, now₂, now₃) ∷ ts) t key h le =
    let e = record_failure_below t key now₁ now₂ now₃ h (omega arith) in
    let f = record_failure-threshold t key now₁ now₂ now₃ in
    let t' = (record_failure t key now₁ now₂ now₃).0 in
    let n : (entry_of t' key).failures ≡ (entry_of t key).failures + 1 = ap (λ x. x.failures) e in
    let (a, b, c) =
      fail_times-entry_of ts t' key (ap (λ x. x.locked_at) e ∙ h) (rw (n, f) (omega arith)) in
    (a, omega arith, c ∙ f)

-- On an account with no failures, each of the first `threshold - 1` failures leaves it open at every
-- time, and the one that reaches the threshold answers that it is locked.
pub fail_times_lock :
    (t : LockoutTracker) (key : String) (ts : List (ℕ × ℕ × ℕ)) (now₁ now₂ now₃ now : ℕ)
    → entry_of t key ≡ no_failures
    → length ts < t.threshold
    → let t' = fail_times t key ts in
      (is_locked t' key now ≡ false)
      × ((record_failure t' key now₁ now₂ now₃).1 ≡ leb t.threshold (length ts + 1))
unfolding record_failure entry_locked
fail_times_lock t key ts now₁ now₂ now₃ now fresh few =
    let (a, b, c) =
      fail_times-entry_of ts t key (ap (λ x. x.locked_at) fresh)
        (let n : (entry_of t key).failures ≡ 0 = ap (λ x. x.failures) fresh in omega arith) in
    let t' = fail_times t key ts in
    let n : (entry_of t key).failures ≡ 0 = ap (λ x. x.failures) fresh in
    (
      is_locked-entry_of t' key now ∙ ground arith,
      ap (λ r. r.1)
            (fail_counts t'.threshold t'.lockout_duration (entry_of t' key) now₁ now₂ now₃ a)
          ∙ ground arith,
    )
