-- ===== src/Auth/Login/BruteForce.antt =====
-- handler.go, `Login`, over lockout.go: wrong passwords in a row lock the account for every password.
use blazelog.Base.{
  ℕ, ◌+◌, ◌≡◌, ◌≤◌, ◌<◌, refl, sym, ap, subst, ◌∙◌, ◌⊎◌, inl, inr, String, true, false, none, some,
  List, [], ◌∷◌, length, le→leb, arith,
}
use blazelog.Base.Dict.{str_eq}
use blazelog.Access.{User}
use blazelog.Auth.Lockout.{LockoutTracker, no_failures, record_failure, entry_locked, is_locked}
use blazelog.Auth.Lockout.Keys.{entry_of, is_locked-entry_of, record_failure_lasts}
use blazelog.Auth.Lockout.Threshold.{
  fail_times, fail_times_lock, record_failure_below, record_failure-threshold,
}
use blazelog.Auth.Login.{Services, State, Readings, account_locked, login, fails}

-- A password with what its login reads.
abbrev pub Attempt : Type 0
Attempt = String × Readings

module _ (s : Services) (name : String) (given : str_eq name "" ≡ false) where
  -- No user has the name, or his password is another; neither text is empty.
  abbrev pub Wrong : String → Type 0
  Wrong password =
      (str_eq password "" ≡ false)
      × ((s.user_by_name name ≡ some none)
          ⊎ ((user : User) × (s.user_by_name name ≡ some (some user))
              × (s.matches user.password_hash password ≡ false)))

  abbrev pub AllWrong : List Attempt → Type 0
  AllWrong [] = Unit {0}
  AllWrong ((password, r) ∷ rest) = Wrong password × AllWrong rest

  abbrev pub attempts : List Attempt → State → State
  attempts [] st = st
  attempts ((password, r) ∷ rest) st = attempts rest (login s (some (name, password)) r st).1

  abbrev times : List Attempt → List (ℕ × ℕ × ℕ)
  times [] = []
  times ((password, r) ∷ rest) = r.at_failure ∷ times rest

  length-times : (tries : List Attempt) → length (times tries) ≡ length tries
  length-times [] = refl
  length-times (a ∷ tries) = omega (arith, length-times tries)

  login-Wrong :
      (password : String) (r : Readings) (st : State)
      → Wrong password
      → is_locked st.tracker name r.at_test ≡ false
      → login s (some (name, password)) r st ≡ fails s name r st
  unfolding login
  login-Wrong password r st w free = rw given (
      rw w.0 (
        rw free (elim w.1 [
          | inl unknown ↦ rw unknown refl
          | inr (user, known, differs) ↦ rw known (rw differs refl)
        ])))

  open_at :
      (t : LockoutTracker) (now : ℕ)
      → (entry_of t name).locked_at ≡ 0
      → is_locked t name now ≡ false
  unfolding entry_locked
  open_at t now h = is_locked-entry_of t name now ∙ ground (arith, h)

  attempts-fail_times :
      (tries : List Attempt) (st : State)
      → AllWrong tries
      → (entry_of st.tracker name).locked_at ≡ 0
      → (entry_of st.tracker name).failures + length tries < st.tracker.threshold
      → (attempts tries st).tracker ≡ fail_times st.tracker name (times tries)
  unfolding fail_times
  attempts-fail_times [] st w h le = refl
  attempts-fail_times ((password, r) ∷ rest) st w h le =
      let e =
        record_failure_below st.tracker name r.at_failure.0 r.at_failure.1 r.at_failure.2 h
          (omega arith) in
      let f =
        record_failure-threshold st.tracker name r.at_failure.0 r.at_failure.1 r.at_failure.2 in
      let st' = (fails s name r st).1 in
      let n : (entry_of st'.tracker name).failures ≡ (entry_of st.tracker name).failures + 1 =
        ap (λ x. x.failures) e in
      let step = login-Wrong password r st w.0 (open_at st.tracker r.at_test h) in
      ap (λ x. (attempts rest x.1).tracker) step
      ∙ attempts-fail_times rest st' w.1 (ap (λ x. x.locked_at) e ∙ h) (rw (n, f) (omega arith))

  -- On an account without failures, when the wrong passwords before the last make one less than the
  -- threshold and the last one is wrong too, the login with any password, the right one included, is
  -- answered as locked and changes nothing, until the lockout's duration after the last failure.
  pub login_brute_force :
      (st : State) (tries : List Attempt) (last : Attempt) (password : String) (r : Readings)
      → entry_of st.tracker name ≡ no_failures
      → length tries + 1 ≡ st.tracker.threshold
      → AllWrong tries
      → Wrong last.0
      → last.1.at_failure.0 ≤ last.1.at_failure.1
      → last.1.at_failure.1 ≤ last.1.at_failure.2
      → 0 < last.1.at_failure.2
      → str_eq password "" ≡ false
      → r.at_test ≤ last.1.at_failure.2 + (attempts tries st).tracker.lockout_duration
      → login s
          (some (name, password))
          r
          (login s (some (name, last.0)) last.1 (attempts tries st)).1
        ≡ (account_locked, (login s (some (name, last.0)) last.1 (attempts tries st)).1)
  unfolding login
  login_brute_force st tries last password r clean full w wl a b positive nonempty early =
      let st1 = attempts tries st in
      let h : (entry_of st.tracker name).locked_at ≡ 0 = ap (λ x. x.locked_at) clean in
      let n : (entry_of st.tracker name).failures ≡ 0 = ap (λ x. x.failures) clean in
      let same = attempts-fail_times tries st w h (omega arith) in
      let size = length-times tries in
      let f = last.1.at_failure in
      let lock = fail_times_lock st.tracker name (times tries) f.0 f.1 f.2 in
      let free_at : (now : ℕ) → is_locked st1.tracker name now ≡ false = λ now.
        subst (λ t. is_locked t name now ≡ false) (sym same) ((lock now clean (omega arith)).0) in
      let answered : (record_failure st1.tracker name f.0 f.1 f.2).1 ≡ true =
        subst (λ t. (record_failure t name f.0 f.1 f.2).1 ≡ true) (sym same)
          ((lock 0 clean (omega arith)).1 ∙ le→leb _ _ (omega arith)) in
      let lasts =
        record_failure_lasts st1.tracker name f.0 f.1 f.2 r.at_test a b positive (free_at f.0)
          answered in
      let step = login-Wrong last.0 last.1 st1 wl (free_at last.1.at_test) in
      subst (λ x. login s (some (name, password)) r x.1 ≡ (account_locked, x.1)) (sym step)
        (rw given (rw nonempty (rw (lasts ∙ le→leb _ _ early) refl)))
