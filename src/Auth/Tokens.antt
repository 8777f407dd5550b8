-- ===== src/Auth/Tokens.antt =====
-- internal/models/token.go, internal/storage/sqlite_tokens.go and internal/api/auth/tokens.go: refresh
-- tokens. The table is the list of its rows; `ok` says whether the database executes a statement, and
-- `hash` stands for the SHA-256 text of a token.
pub mod Laws
use blazelog.Base.{
  ℕ, ◌+◌, String, Bool, true, false, not, ◌&&◌, Option, none, some, List, [], ◌∷◌, ◌++◌, ltb,
  if◌then◌else◌, length,
}
use blazelog.Base.Dict.{str_eq}
use blazelog.Access.{User}

pub record RefreshToken : Type 0 where
  pub id : String
  pub user_id : String
  pub token_hash : String
  pub expires_at : ℕ
  pub created_at : ℕ
  pub revoked : Bool
  pub revoked_at : Option ℕ

unfoldable pub is_expired : ℕ → RefreshToken → Bool
is_expired now t = ltb t.expires_at now

unfoldable pub is_valid : ℕ → RefreshToken → Bool
unfolding is_expired
is_valid now t = not t.revoked && not (is_expired now t)

-- `Create`, where `uuid` is the id that is made for a token without one
unfoldable pub create_row : String → RefreshToken → List RefreshToken → List RefreshToken
create_row uuid t rows = rows ++ (if str_eq t.id "" then record t { id = uuid } else t) ∷ []

-- The row that has the hash: the column is unique.
unfoldable pub get_by_token_hash : String → List RefreshToken → Option RefreshToken
get_by_token_hash h [] = none
get_by_token_hash h (t ∷ rest) =
    let later = get_by_token_hash h rest in if str_eq t.token_hash h then some t else later

abbrev pub revoked_since : ℕ → RefreshToken → RefreshToken
revoked_since now t = record t { revoked = true; revoked_at = some now }

unfoldable pub revoke_by_token_hash : ℕ → String → List RefreshToken → List RefreshToken
revoke_by_token_hash now h [] = []
revoke_by_token_hash now h (t ∷ rest) =
    let others = revoke_by_token_hash now h rest in
    (if str_eq t.token_hash h then revoked_since now t else t) ∷ others

unfoldable pub revoke_all_for_user : ℕ → String → List RefreshToken → List RefreshToken
revoke_all_for_user now user_id [] = []
revoke_all_for_user now user_id (t ∷ rest) =
    let others = revoke_all_for_user now user_id rest in
    (if str_eq t.user_id user_id && not t.revoked then revoked_since now t else t) ∷ others

-- `DeleteExpired`: the rows left, and how many were deleted
unfoldable pub delete_expired : ℕ → List RefreshToken → List RefreshToken × ℕ
delete_expired now [] = ([], 0)
delete_expired now (t ∷ rest) =
    let others = delete_expired now rest in
    if ltb t.expires_at now then (others.0, others.1 + 1) else (t ∷ others.0, others.1)

pub data Validation : Type 0 where
  lookup_failed token_not_found expired_or_revoked user_lookup_failed user_not_found : Validation
  valid_for : User → Validation

module _ (hash : String → String) where
  -- `NewRefreshToken` on the text of the random bytes
  unfoldable pub new_refresh_token : String → ℕ → String → ℕ → RefreshToken
  new_refresh_token user_id ttl plain now = record {
    id = "";
    user_id = user_id;
    token_hash = hash plain;
    expires_at = now + ttl;
    created_at = now;
    revoked = false;
    revoked_at = none;
  }

  -- `CreateRefreshToken`, on the text of the random bytes or none for their error
  unfoldable pub create_refresh_token :
      ℕ
      → Option String
      → String
      → Bool
      → String
      → ℕ
      → List RefreshToken
      → Option String × List RefreshToken
  unfolding new_refresh_token create_row
  create_refresh_token ttl none uuid ok user_id now rows = (none, rows)
  create_refresh_token ttl (some plain) uuid ok user_id now rows =
      if ok
      then (some plain, create_row uuid (new_refresh_token user_id ttl plain now) rows)
      else (none, rows)

  abbrev pub check_user : Option (Option User) → Validation
  check_user none = user_lookup_failed
  check_user (some none) = user_not_found
  check_user (some (some user)) = valid_for user

  -- What `user_by_id` answers: an error, no user or a user.
  module _ (user_by_id : String → Option (Option User)) where
    abbrev pub check_row : ℕ → Option RefreshToken → Validation
    check_row now none = token_not_found
    check_row now (some t) =
        if not (is_valid now t) then expired_or_revoked else check_user (user_by_id t.user_id)

    unfoldable pub validate_refresh_token : Bool → ℕ → String → List RefreshToken → Validation
    unfolding get_by_token_hash is_valid
    validate_refresh_token ok now plain rows =
        if ok then check_row now (get_by_token_hash (hash plain) rows) else lookup_failed

  -- `RevokeRefreshToken`
  unfoldable pub revoke_refresh_token : Bool → ℕ → String → List RefreshToken → List RefreshToken
  unfolding revoke_by_token_hash
  revoke_refresh_token ok now plain rows =
      if ok then revoke_by_token_hash now (hash plain) rows else rows

  -- `RotateRefreshToken`: an error of the revocation is only logged.
  unfoldable pub rotate_refresh_token :
      ℕ
      → Bool
      → Option String
      → String
      → Bool
      → String
      → String
      → ℕ
      → ℕ
      → List RefreshToken
      → Option String × List RefreshToken
  unfolding revoke_refresh_token create_refresh_token
  rotate_refresh_token ttl revokes random uuid creates old user_id now later rows =
      create_refresh_token ttl random uuid creates user_id later
        (revoke_refresh_token revokes now old rows)
