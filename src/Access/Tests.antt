-- ===== src/Access/Tests.antt =====
-- internal/models/user.go, rbac.go and project_access.go, on a few roles.
use blazelog.Base.{◌≡◌, refl, true, false}
use blazelog.Access.{User, parse_role, require_admin_or_self}

abbrev viewer : User
viewer = record {
  id = "7";
  username = "eve";
  email = "eve@example.org";
  password_hash = "";
  role = "viewer";
  created_at = 3;
  updated_at = 3;
}

parse_role_tests : (parse_role "operator" ≡ "operator") × (parse_role "root" ≡ "viewer")
unfolding parse_role
parse_role_tests = (refl, refl)

own_resource :
    (require_admin_or_self "7" "viewer" "7" ≡ true) × (require_admin_or_self "" "viewer" "" ≡ false)
unfolding require_admin_or_self
own_resource = (refl, refl)
