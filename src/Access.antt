-- ===== src/Access.antt =====
-- internal/models/user.go and internal/api/middleware/rbac.go: the roles, and which requests the
-- middlewares let through. A middleware is the test that decides whether it calls the next handler.
pub mod Projects
pub mod Laws
mod Tests
use blazelog.Base.{ℕ, String, Bool, true, false, not, ◌&&◌, ◌||◌, List, [], ◌∷◌, if◌then◌else◌}
use blazelog.Base.Dict.{str_eq}

-- `Role` is a string: any other text can stand in a token's claims.
abbrev pub role_admin : String
role_admin = "admin"

abbrev pub role_operator : String
role_operator = "operator"

abbrev pub role_viewer : String
role_viewer = "viewer"

unfoldable pub parse_role : String → String
parse_role s =
    if str_eq s "admin"
    then role_admin
    else if str_eq s "operator"
    then role_operator
    else role_viewer

pub record User : Type 0 where
  pub id : String
  pub username : String
  pub email : String
  pub password_hash : String
  pub role : String
  pub created_at : ℕ
  pub updated_at : ℕ

-- `NewUser`, at that time
unfoldable pub new_user : String → String → String → ℕ → User
new_user username email role now = record {
  id = "";
  username = username;
  email = email;
  password_hash = "";
  role = role;
  created_at = now;
  updated_at = now;
}

unfoldable pub is_admin : User → Bool
is_admin u = str_eq u.role role_admin

unfoldable pub can_write : User → Bool
can_write u = str_eq u.role role_admin || str_eq u.role role_operator

abbrev pub role_in : String → List String → Bool
role_in role [] = false
role_in role (allowed ∷ rest) = if str_eq role allowed then true else role_in role rest

unfoldable pub require_role : List String → String → Bool
require_role allowed role =
    if str_eq role ""
    then false
    else if role_in role allowed
    then true
    else if str_eq role role_admin
    then true
    else false

unfoldable pub require_admin : String → Bool
unfolding require_role
require_admin role = require_role (role_admin ∷ []) role

unfoldable pub require_operator : String → Bool
unfolding require_role
require_operator role = require_role (role_operator ∷ role_admin ∷ []) role

unfoldable pub require_admin_or_self : String → String → String → Bool
require_admin_or_self user_id role resource_id =
    if str_eq role role_admin
    then true
    else if not (str_eq resource_id "") && str_eq resource_id user_id
    then true
    else false

unfoldable pub require_can_write : String → Bool
require_can_write role = if str_eq role role_admin || str_eq role role_operator then true else false
