-- ===== src/Storage/LogQuery/Where/Access.antt =====
-- project_access.go, then clickhouse.go: the access of a user, its filter and the condition in SQL.
use blazelog.Base.{
  ◌≡◌, refl, sym, subst, ◌⊎◌, inl, inr, String, Bool, true, false, ◌&&◌, ◌||◌, some, List, [], ◌∷◌,
  if◌then◌else◌, length, ◌==◌, ltb, arith, Bool-cases,
}
use blazelog.Base.Dict.{str_eq}
use text.Mathlib.TextEquality.{eq_iff}
use blazelog.Access.{role_admin, role_operator, role_viewer}
use blazelog.Access.Projects.{
  ProjectFilter, ProjectAccess, get_project_access, can_access_project, apply_to_filter, id_in,
}
use blazelog.Storage.LogQuery.{build_project_filter}
use blazelog.Storage.LogQuery.Where.{holds, written, condition_of, build_project_filter_lem}

-- No filter by project.
abbrev pub unrestricted : ProjectFilter
unrestricted = record { project_id = ""; project_ids = []; include_unassigned = false }

-- The access lets all in, or says which.
abbrev Bounded : ProjectAccess → Type 0
Bounded pa =
    (pa.all_projects ≡ true)
    ⊎ ((pa.include_unassigned ≡ true) ⊎ (ltb 0 (length pa.project_ids) ≡ true))

-- No project has the empty id.
abbrev pub Named : List String → Type 0
Named [] = Unit {0}
Named (x ∷ xs) = (str_eq x "" ≡ false) × Named xs

id_in-Named : (ids : List String) → Named ids → id_in "" ids ≡ false
id_in-Named [] h = refl
id_in-Named (x ∷ xs) h = rw h.0 (id_in-Named xs h.1)

some_injective {ℓ} : {A : Type ℓ} → {a b : A} → some a ≡ some b → a ≡ b
some_injective e = cc

get_project_access-Bounded :
    (role : String) (ids : List String) (pa : ProjectAccess)
    → Named ids
    → get_project_access role (some ids) ≡ some pa
    → Bounded pa × Named pa.project_ids
unfolding get_project_access
get_project_access-Bounded role ids pa h e = elim (Bool-cases (str_eq role role_admin)) [
  | inl admin ↦
      subst (λ p. Bounded p × Named p.project_ids) (some_injective (rw admin at e)) (inl refl, tt)
  | inr no_admin ↦
      let e1 = rw no_admin at e in
      elim (Bool-cases (str_eq role role_operator && length ids == 0)) [
        | inl legacy ↦
            subst (λ p. Bounded p × Named p.project_ids) (some_injective (rw legacy at e1))
              (inl refl, tt)
        | inr no_legacy ↦
            let e2 = rw no_legacy at e1 in
            elim (Bool-cases (str_eq role role_operator)) [
              | inl operator ↦
                  subst (λ p. Bounded p × Named p.project_ids) (some_injective (rw operator at e2))
                    (inr (inl refl), h)
              | inr no_operator ↦
                  let e3 = rw no_operator at e2 in
                  elim (Bool-cases (str_eq role role_viewer && ltb 0 (length ids))) [
                    | inl assigned ↦
                        subst (λ p. Bounded p × Named p.project_ids)
                          (some_injective (rw assigned at e3)) (inr (inr (ground (arith))), h)
                    | inr none_assigned ↦
                        subst (λ p. Bounded p × Named p.project_ids)
                          (some_injective (rw none_assigned at e3)) (inr (inl refl), tt)
                  ]
            ]
      ]
]

covers :
    (ids : List String) (u : Bool) (id : String)
    → (u ≡ true) ⊎ (ltb 0 (length ids) ≡ true)
    → Named ids
    → holds
        (condition_of (record { project_id = ""; project_ids = ids; include_unassigned = u }))
        id
      ≡ (if str_eq id "" then u else id_in id ids)
covers [] true id b h = elim (Bool-cases (str_eq id "")) [ inl e ↦ rw e refl | inr e ↦ rw e refl ]
covers [] false id b h = absurd (elim b [ inl e ↦ cc | inr e ↦ cc ])
covers (x ∷ xs) true id b h = elim (Bool-cases (str_eq id "")) [
  | inl e ↦ rw e (or-true (id_in id (x ∷ xs)))
  | inr e ↦ rw e (or-false (id_in id (x ∷ xs)))
]
  where
    or-true : (a : Bool) → (a || true) ≡ true
    or-true true = refl
    or-true false = refl

    or-false : (a : Bool) → (a || false) ≡ a
    or-false true = refl
    or-false false = refl
covers (x ∷ xs) false id b h = elim (Bool-cases (str_eq id "")) [
  | inl e ↦
      let empty : id ≡ "" = (eq_iff id "").0 e in
      rw e (subst (λ i. id_in i (x ∷ xs) ≡ false) (sym empty) (id_in-Named (x ∷ xs) h))
  | inr e ↦ rw e refl
]

and-false : (a : Bool) → false ≡ (a && false)
and-false true = refl
and-false false = refl

abbrev requested_only : String → ProjectFilter
requested_only requested = record {
  project_id = requested;
  project_ids = [];
  include_unassigned = false;
}

and-false_right : (a b : Bool) → b ≡ false → (a && b) ≡ false
and-false_right true b e = e
and-false_right false b e = refl

denied_clash :
    (pa : ProjectAccess) (requested : String) (f : ProjectFilter)
    → str_eq requested "" ≡ false
    → can_access_project pa requested ≡ false
    → apply_to_filter pa unrestricted requested ≡ some f
    → ⊥
unfolding apply_to_filter can_access_project
denied_clash pa requested f one denied e =
    let e1 = rw (and-false_right pa.all_projects (str_eq requested "") one) at e in
    let e2 = rw one at e1 in let d = rw one at denied in let e3 = rw d at e2 in cc

allowed_filter :
    (pa : ProjectAccess) (requested : String) (f : ProjectFilter)
    → str_eq requested "" ≡ false
    → can_access_project pa requested ≡ true
    → apply_to_filter pa unrestricted requested ≡ some f
    → requested_only requested ≡ f
unfolding apply_to_filter can_access_project
allowed_filter pa requested f one allowed e =
    let e1 = rw (and-false_right pa.all_projects (str_eq requested "") one) at e in
    let e2 = rw one at e1 in let d = rw one at allowed in let e3 = rw d at e2 in some_injective e3

-- For a user whose assigned projects have names, the filter without a project that is restricted by his
-- access, or denied, is written as a condition on `project_id` that lets through a row exactly when the
-- user can access its project and the row is of the requested project, if one was requested.
pub restricted-holds :
    (role : String) (ids : List String) (pa : ProjectAccess) (requested : String)
    (f : ProjectFilter) (id : String)
    → Named ids
    → get_project_access role (some ids) ≡ some pa
    → apply_to_filter pa unrestricted requested ≡ some f
    → (build_project_filter f ≡ written (condition_of f))
      × (holds (condition_of f) id ≡ (
          can_access_project pa id && (if str_eq requested "" then true else str_eq requested id)))
unfolding apply_to_filter can_access_project
restricted-holds role ids pa requested f id h g e = (
  build_project_filter_lem f,
  elim (Bool-cases (str_eq requested "")) [
    | inl any ↦ rw any (and-true _ _ (open_request any))
    | inr one ↦ rw one (one_request one)
  ],
)
  where
    shape : Bounded pa × Named pa.project_ids
    shape = get_project_access-Bounded role ids pa h g

    and-true : (a b : Bool) → a ≡ b → a ≡ (b && true)
    and-true a true e = e
    and-true a false e = e

    open_request : str_eq requested "" ≡ true → holds (condition_of f) id ≡ can_access_project pa id
    open_request any = elim (Bool-cases pa.all_projects) [
      | inl all ↦
          let e1 = rw any at e in
          let e2 = rw all at e1 in
          let same : unrestricted ≡ f = some_injective e2 in
          subst (λ x. holds (condition_of x) id ≡ can_access_project pa id) same (rw all refl)
      | inr not_all ↦
          let e1 = rw any at e in
          let e2 = rw not_all at e1 in
          let same : record {
            project_id = "";
            project_ids = pa.project_ids;
            include_unassigned = pa.include_unassigned;
          }
              ≡ f =
            some_injective e2 in
          subst (λ x. holds (condition_of x) id ≡ can_access_project pa id) same
            (rw not_all (
              covers pa.project_ids pa.include_unassigned id
                (elim shape.0 [ inl all ↦ absurd (cc) | inr b ↦ b ]) shape.1))
    ]

    one_request :
        str_eq requested "" ≡ false
        → holds (condition_of f) id ≡ (can_access_project pa id && str_eq requested id)
    one_request one = elim (Bool-cases (can_access_project pa requested)) [
      | inr denied ↦ let clash = denied_clash pa requested f one denied e in absurd clash
      | inl allowed ↦
          let same = allowed_filter pa requested f one allowed e in
          subst (λ x. holds (condition_of x) id ≡ (can_access_project pa id && str_eq requested id))
            same
            (rw one (elim (Bool-cases (str_eq requested id)) [
              | inl this_one ↦
                  let there : can_access_project pa id ≡ true =
                    subst (λ i. can_access_project pa i ≡ true) ((eq_iff requested id).0 this_one)
                      allowed in
                  rw there (refl)
              | inr another ↦ rw another (and-false (can_access_project pa id))
            ]))
    ]
