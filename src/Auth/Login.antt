-- ===== src/Auth/Login.antt =====
-- internal/api/auth/handler.go: `Login`, `Refresh` and `Logout` over the lockout tracker and the table of
-- refresh tokens. A request is its decoded body, none where the decoding fails.
pub mod BruteForce
pub mod Rotation
mod Tests
use blazelog.Base.{
  ℕ, String, Bool, true, false, ◌||◌, Option, none, some, List, [], ◌∷◌, if◌then◌else◌,
}
use blazelog.Base.Dict.{str_eq}
use blazelog.Access.{User}
use blazelog.Auth.Lockout.{LockoutTracker, is_locked, record_failure, clear_failures}
use blazelog.Auth.Tokens.{
  RefreshToken, Validation, valid_for, lookup_failed, token_not_found, expired_or_revoked,
  user_lookup_failed, user_not_found, create_refresh_token, validate_refresh_token,
  revoke_refresh_token, rotate_refresh_token,
}

-- The user repository, bcrypt's comparison, SHA-256 and the JWT service; none is an error.
pub record Services : Type 0 where
  pub user_by_name : String → Option (Option User)
  pub user_by_id : String → Option (Option User)
  pub matches : String → String → Bool
  pub hash : String → String
  pub access_token : User → Option String
  pub refresh_ttl : ℕ

pub record State : Type 0 where
  pub tracker : LockoutTracker
  pub tokens : List RefreshToken

-- What one request reads: the clock at the test of the lockout, the three readings of a failure, the
-- clock at the tokens, the random text with the id of its row, and whether the database executes the
-- lookup, the revocation and the insertion.
pub record Readings : Type 0 where
  pub at_test : ℕ
  pub at_failure : ℕ × ℕ × ℕ
  pub at_tokens : ℕ
  pub random : Option String
  pub uuid : String
  pub finds : Bool
  pub revokes : Bool
  pub creates : Bool

pub data Response : Type 0 where
  bad_request unauthorized account_locked internal_error no_content : Response
  -- The access token and the refresh token.
  ok : String → String → Response

module _ (s : Services) where
  abbrev pub fails : String → Readings → State → Response × State
  fails name r st = (
    unauthorized,
    record st {
      tracker = (record_failure st.tracker name r.at_failure.0 r.at_failure.1 r.at_failure.2).0;
    },
  )

  -- The answer with the refresh token, if there is one.
  abbrev pub answer : String → Option String × List RefreshToken → State → Response × State
  answer access (none, rows) st = (internal_error, record st { tokens = rows })
  answer access (some refresh, rows) st = (ok access refresh, record st { tokens = rows })

  abbrev pub grant : User → Readings → State → Response × State
  grant user r st = elim (s.access_token user) [
    | none ↦ (internal_error, st)
    | some access ↦
        answer access
          (create_refresh_token s.hash s.refresh_ttl r.random r.uuid r.creates user.id r.at_tokens
            st.tokens)
          st
  ]

  -- The password of the user that was found, or not.
  abbrev pub check_password :
      String → String → Option (Option User) → Readings → State → Response × State
  check_password name password none r st = (internal_error, st)
  check_password name password (some none) r st = fails name r st
  check_password name password (some (some user)) r st =
      if s.matches user.password_hash password
      then grant user r (record st { tracker = clear_failures st.tracker name })
      else fails name r st

  unfoldable pub login : Option (String × String) → Readings → State → Response × State
  login none r st = (bad_request, st)
  login (some (name, password)) r st =
      if str_eq name "" || str_eq password ""
      then (bad_request, st)
      else if is_locked st.tracker name r.at_test
      then (account_locked, st)
      else check_password name password (s.user_by_name name) r st

  abbrev pub renew : String → Validation → Readings → State → Response × State
  renew old (valid_for user) r st = elim (s.access_token user) [
    | none ↦ (internal_error, st)
    | some access ↦
        answer access
          (rotate_refresh_token s.hash s.refresh_ttl r.revokes r.random r.uuid r.creates old user.id
            r.at_tokens r.at_tokens st.tokens)
          st
  ]
  renew old _ r st = (unauthorized, st)

  unfoldable pub refresh : Option String → Readings → State → Response × State
  refresh none r st = (bad_request, st)
  refresh (some token) r st =
      if str_eq token ""
      then (bad_request, st)
      else renew token
          (validate_refresh_token s.hash s.user_by_id r.finds r.at_tokens token st.tokens) r st

  unfoldable pub logout : Option String → Readings → State → Response × State
  logout none r st = (bad_request, st)
  logout (some token) r st = if str_eq token "" then (bad_request, st) else (
    no_content,
    record st { tokens = revoke_refresh_token s.hash r.revokes r.at_tokens token st.tokens },
  )
