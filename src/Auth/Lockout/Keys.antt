-- ===== src/Auth/Lockout/Keys.antt =====
-- lockout.go, `LockoutTracker`: what a call does to each key.
use blazelog.Base.{
  ℕ, ◌+◌, ◌≤◌, ◌<◌, ◌≡◌, inl, inr, refl, ap, ◌∙◌, String, true, false, List, [], ◌∷◌, arith, leb,
  if◌then◌else◌, Bool-cases,
}
use blazelog.Base.Dict.{
  lookup, str_eq, str_eq_refl, Distinct, lookup-insert, lookup-remove, lookup-keep, insert-Distinct,
  remove-Distinct, keep-Distinct,
}
use blazelog.Auth.Lockout.{
  LockoutEntry, LockoutTracker, new_lockout_tracker, or_empty, fail, record_failure, entry_locked,
  is_locked, clear_failures, lives, cleanup,
}
use blazelog.Auth.Lockout.Entry.{EntryValid, fail-EntryValid, fail-entry_locked, fail_lasts}

abbrev pub entry_of : LockoutTracker → String → LockoutEntry
entry_of t key = or_empty (lookup key t.entries)

pub record Valid (t : LockoutTracker) : Type 0 where
  pub positive : 0 < t.threshold
  pub distinct : Distinct t.entries
  pub entries : (key : String) → EntryValid t.threshold (entry_of t key)

pub new-Valid :
    (threshold duration : ℕ) → 0 < threshold → Valid (new_lockout_tracker threshold duration)
unfolding new_lockout_tracker lookup
new-Valid threshold duration h = record {
  positive = h;
  distinct = tt;
  entries = λ key. omega arith;
}

pub is_locked-entry_of :
    (t : LockoutTracker) (key : String) (now : ℕ)
    → is_locked t key now ≡ entry_locked (entry_of t key) now
unfolding is_locked
is_locked-entry_of t key now = ground arith

pub entry_of-record_failure :
    (t : LockoutTracker) (key other : String) (now₁ now₂ now₃ : ℕ)
    → entry_of (record_failure t key now₁ now₂ now₃).0 other ≡ (
        if str_eq key other
        then (fail t.threshold t.lockout_duration (entry_of t key) now₁ now₂ now₃).0
        else entry_of t other)
unfolding record_failure
entry_of-record_failure t key other now₁ now₂ now₃ = ground (
  arith,
  lookup-insert key other (fail t.threshold t.lockout_duration (entry_of t key) now₁ now₂ now₃).0
      t.entries,
)

-- What `RecordFailure` answers is what `IsLocked` answers right after it.
record_failure-is_locked :
    (t : LockoutTracker) (key : String) (now₁ now₂ now₃ : ℕ)
    → Valid t
    → now₁ ≤ now₂
    → now₂ ≤ now₃
    → 0 < now₃
    → let (t', locked) = record_failure t key now₁ now₂ now₃ in is_locked t' key now₁ ≡ locked
unfolding record_failure
record_failure-is_locked t key now₁ now₂ now₃ v h k p =
    is_locked-entry_of (record_failure t key now₁ now₂ now₃).0 key now₁
    ∙ ap (λ e. entry_locked e now₁)
        (entry_of-record_failure t key key now₁ now₂ now₃ ∙ rw (str_eq_refl key) refl)
    ∙ fail-entry_locked t.threshold t.lockout_duration (entry_of t key) now₁ now₂ now₃
        (v.entries key) h k p

-- A failure that locks an account which was not locked keeps it locked until `lockoutDuration`
-- after the last clock reading, that instant included, and not longer.
pub record_failure_lasts :
    (t : LockoutTracker) (key : String) (now₁ now₂ now₃ now : ℕ)
    → now₁ ≤ now₂
    → now₂ ≤ now₃
    → 0 < now₃
    → is_locked t key now₁ ≡ false
    → (record_failure t key now₁ now₂ now₃).1 ≡ true
    → is_locked (record_failure t key now₁ now₂ now₃).0 key now
      ≡ leb now (now₃ + t.lockout_duration)
unfolding record_failure
record_failure_lasts t key now₁ now₂ now₃ now h k p free answer =
    is_locked-entry_of (record_failure t key now₁ now₂ now₃).0 key now
    ∙ ap (λ e. entry_locked e now)
        (entry_of-record_failure t key key now₁ now₂ now₃ ∙ rw (str_eq_refl key) refl)
    ∙ fail_lasts t.threshold t.lockout_duration (entry_of t key) now₁ now₂ now₃ now h k p
        (cc (is_locked-entry_of t key now₁)) answer

record_failure-Valid :
    (t : LockoutTracker) (key : String) (now₁ now₂ now₃ : ℕ)
    → Valid t
    → Valid (record_failure t key now₁ now₂ now₃).0
unfolding record_failure
record_failure-Valid t key now₁ now₂ now₃ v = record {
  positive = v.positive;
  distinct = insert-Distinct key _ t.entries v.distinct;
  entries = λ other. elim (Bool-cases (str_eq key other)) [
    | inl same ↦
        rw (entry_of-record_failure t key other now₁ now₂ now₃, same)
          (fail-EntryValid t.threshold t.lockout_duration _ now₁ now₂ now₃ (v.entries key))
    | inr differs ↦
        rw (entry_of-record_failure t key other now₁ now₂ now₃, differs) (v.entries other)
  ];
}

clear_failures-Valid : (t : LockoutTracker) (key : String) → Valid t → Valid (clear_failures t key)
unfolding clear_failures
clear_failures-Valid t key v = record {
  positive = v.positive;
  distinct = remove-Distinct key t.entries v.distinct;
  entries = λ other. elim (Bool-cases (str_eq key other)) [
    | inl same ↦ rw (lookup-remove key other t.entries, same) (omega arith)
    | inr differs ↦ rw (lookup-remove key other t.entries, differs) (v.entries other)
  ];
}

cleanup-Valid : (t : LockoutTracker) (now : ℕ) → Valid t → Valid (cleanup t now)
unfolding cleanup
cleanup-Valid t now v = record {
  positive = v.positive;
  distinct = keep-Distinct (lives now) t.entries v.distinct;
  entries =
      λ other. ground (arith, lookup-keep (lives now) other t.entries v.distinct, v.entries other);
}

-- Cleaning up changes no answer of `IsLocked` from then on.
cleanup-is_locked :
    (t : LockoutTracker) (key : String) (now later : ℕ)
    → Valid t
    → now ≤ later
    → is_locked (cleanup t now) key later ≡ is_locked t key later
unfolding cleanup is_locked
cleanup-is_locked t key now later v h =
    let e = v.entries key in
    let l = lookup-keep (lives now) key t.entries v.distinct in let p = v.positive in ground arith

-- The calls that change the tracker, each with its clock readings.
pub data Call : Type 0 where
  records : String → ℕ → ℕ → ℕ → Call
  clears : String → Call
  cleans : ℕ → Call

pub step : LockoutTracker → Call → LockoutTracker
step t (records key now₁ now₂ now₃) = (record_failure t key now₁ now₂ now₃).0
step t (clears key) = clear_failures t key
step t (cleans now) = cleanup t now

pub run : LockoutTracker → List Call → LockoutTracker
run t [] = t
run t (c ∷ cs) = run (step t c) cs

step-Valid : (t : LockoutTracker) (c : Call) → Valid t → Valid (step t c)
unfolding step
step-Valid t (records key now₁ now₂ now₃) v = record_failure-Valid t key now₁ now₂ now₃ v
step-Valid t (clears key) v = clear_failures-Valid t key v
step-Valid t (cleans now) v = cleanup-Valid t now v

-- Every call keeps the tracker valid: keys stand once, and a locked account has reached the
-- threshold.
run-Valid : (t : LockoutTracker) (cs : List Call) → Valid t → Valid (run t cs)
unfolding run
run-Valid t [] v = v
run-Valid t (c ∷ cs) v = run-Valid (step t c) cs (step-Valid t c v)
