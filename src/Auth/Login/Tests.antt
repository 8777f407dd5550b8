-- ===== src/Auth/Login/Tests.antt =====
-- internal/api/auth/handler.go, with one user.
use Prim.Native.String.{◌++◌ as str_append}
use blazelog.Base.{
  ℕ, ◌≡◌, refl, arith, String, true, false, none, some, [], ◌∷◌, if◌then◌else◌, subst, inr,
}
use blazelog.Base.Dict.{str_eq, lookup}
use blazelog.Access.{User}
use blazelog.Auth.Lockout.{is_locked, record_failure}
use blazelog.Auth.Tokens.{validate_refresh_token, rotate_refresh_token}
use blazelog.Auth.Login.{
  Services, State, Readings, ok, unauthorized, account_locked, login, refresh,
}
use blazelog.Auth.Login.BruteForce.{attempts, login_brute_force}
use blazelog.Auth.Login.Rotation.{refresh_once}

abbrev ann : User
ann = record {
  id = "1";
  username = "ann";
  email = "ann@example.org";
  password_hash = "#secret";
  role = "operator";
  created_at = 1;
  updated_at = 1;
}

-- A hash that puts a sign in front.
abbrev services : Services
services = record {
  user_by_name = λ n. if str_eq n "ann" then some (some ann) else some none;
  user_by_id = λ i. if str_eq i "1" then some (some ann) else some none;
  matches = λ h p. str_eq h (str_append "#" p);
  hash = λ t. str_append "#" t;
  access_token = λ u. some u.username;
  refresh_ttl = 1000;
}

abbrev readings : String → ℕ → Readings
readings random now = record {
  at_test = now;
  at_failure = (now, now, now);
  at_tokens = now;
  random = some random;
  uuid = random;
  finds = true;
  revokes = true;
  creates = true;
}

abbrev start : State
start = record {
  tracker = record { entries = []; threshold = 2; lockout_duration = 100 };
  tokens = [];
}

abbrev wrong_twice : State
wrong_twice =
    (login services (some ("ann", "guess")) (readings "b" 6)
      (attempts services "ann" refl (("hunter", readings "a" 5) ∷ []) start)).1

login_brute_force_example :
    login services (some ("ann", "secret")) (readings "c" 50) wrong_twice
    ≡ (account_locked, wrong_twice)
unfolding lookup login is_locked record_failure
login_brute_force_example =
    login_brute_force services "ann" refl start (("hunter", readings "a" 5) ∷ [])
      ("guess", readings "b" 6) "secret" (readings "c" 50) refl refl
      ((refl, inr (ann, refl, refl)), tt) (refl, inr (ann, refl, refl)) (omega arith) (omega arith)
      (omega arith) refl (omega arith)

abbrev logged_in : State
logged_in = record start {
  tokens =
      record {
        id = "a";
        user_id = "1";
        token_hash = "#tok";
        expires_at = 1005;
        created_at = 5;
        revoked = false;
        revoked_at = none;
      }
      ∷ [];
}

exchanged : (refresh services (some "tok") (readings "new" 10) logged_in).0 ≡ ok "ann" "new"
unfolding refresh validate_refresh_token rotate_refresh_token
exchanged = refl

another : (plain : String) → some "new" ≡ some plain → str_eq (str_append "#" plain) "#tok" ≡ false
another plain e =
    let same : "new" ≡ plain = cc in subst (λ x. str_eq (str_append "#" x) "#tok" ≡ false) same refl

refresh_once_example :
    refresh services
      (some "tok")
      (readings "later" 20)
      (refresh services (some "tok") (readings "new" 10) logged_in).1
    ≡ (unauthorized, (refresh services (some "tok") (readings "new" 10) logged_in).1)
refresh_once_example =
    refresh_once services "tok" refl (readings "new" 10) (readings "later" 20) logged_in "ann" "new"
      refl another exchanged
