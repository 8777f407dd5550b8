-- ===== src/Access/Laws.antt =====
-- rbac.go and project_access.go: the roles in order.
use text.Mathlib.TextEquality.{eq_iff}
use blazelog.Base.{
  ◌≡◌, refl, inl, inr, String, Bool, true, false, none, some, List, [], ◌∷◌, if◌then◌else◌, length,
  ltb, ◌==◌, arith, Bool-cases, suc, lt→ltb,
}
use blazelog.Base.Dict.{str_eq}
use blazelog.Access.{
  role_admin, role_operator, role_viewer, require_operator, require_can_write, User, can_write,
}
use blazelog.Access.Projects.{get_project_access, can_access_project}

-- RequireOperator and RequireCanWrite let the same roles through: those for which CanWrite holds.
require_operator-can_write :
    (u : User) → (require_operator u.role ≡ can_write u) × (require_can_write u.role ≡ can_write u)
unfolding require_operator require_can_write can_write
require_operator-can_write u = elim (Bool-cases (str_eq u.role role_admin)) [
  | inl admin ↦
      let is : u.role ≡ role_admin = (eq_iff u.role role_admin).0 admin in rw is (refl, refl)
  | inr no_admin ↦ elim (Bool-cases (str_eq u.role role_operator)) [
    | inl operator ↦
        let is : u.role ≡ role_operator = (eq_iff u.role role_operator).0 operator in
        rw is (refl, refl)
    | inr no_operator ↦ rw no_admin (rw no_operator (blank (str_eq u.role ""), refl))
  ]
]
  where
    blank : (b : Bool) → (if b then false else false) ≡ false
    blank true = refl
    blank false = refl

-- What the roles of one user would see of the project: none for an error.
abbrev pub sees : String → List String → String → Bool
sees role ids id = elim (get_project_access role (some ids)) [
  | none ↦ false
  | some pa ↦ can_access_project pa id
]

-- With the same assigned projects, an operator can access each project that a viewer can, and an
-- administrator can access all; a viewer without assigned projects can access the unassigned logs only.
sees_more :
    (ids : List String) (id : String)
    → (sees role_viewer ids id ≡ true → sees role_operator ids id ≡ true)
      × (sees role_admin ids id ≡ true)
      × (sees role_viewer [] id ≡ str_eq id "")
unfolding get_project_access can_access_project
sees_more [] id = (λ e. refl, refl, as_bool (str_eq id ""))
  where
    as_bool : (b : Bool) → (if b then true else false) ≡ b
    as_bool true = refl
    as_bool false = refl
sees_more (x ∷ xs) id = (
  λ e.
      rw (some_assigned, sees)
        (elim (Bool-cases (str_eq id "")) [
          | inl unassigned ↦ rw unassigned refl
          | inr named ↦ let e1 = rw (more, sees) at e in rw named (rw named at e1)
        ]),
  refl,
  as_bool (str_eq id ""),
)
  where
    some_assigned : (suc (length xs) == 0) ≡ false
    some_assigned = ground (arith)

    more : ltb 0 (suc (length xs)) ≡ true
    more = lt→ltb _ _ (omega arith)

    as_bool : (b : Bool) → (if b then true else false) ≡ b
    as_bool true = refl
    as_bool false = refl
