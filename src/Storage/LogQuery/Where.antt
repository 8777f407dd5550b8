-- ===== src/Storage/LogQuery/Where.antt =====
-- clickhouse.go, `buildProjectFilter`, behind project_access.go: the rows that a restricted query asks for
-- are those of the projects that the user can access.
pub mod Access
use blazelog.Base.{
  ℕ, ◌+◌, ◌≡◌, refl, sym, ap, subst, ◌∙◌, inl, inr, String, Bool, true, false, not, ◌&&◌, ◌||◌,
  Option, none, some, List, [], ◌∷◌, ◌++◌, if◌then◌else◌, length, ◌==◌, ltb, arith, Bool-cases,
}
use blazelog.Base.Dict.{str_eq}
use blazelog.Query.Text.{concat, join}
use blazelog.Access.{role_admin, role_operator, role_viewer}
use blazelog.Access.Projects.{
  ProjectFilter, ProjectAccess, get_project_access, can_access_project, apply_to_filter, id_in,
}
use blazelog.Storage.LogQuery.{build_project_filter, ids_condition, placeholders, join_with}

-- What a condition on the column `project_id` can say.
pub data Condition : Type 0 where
  any_project unassigned : Condition
  project : String → Condition
  one_of one_of_or_unassigned : List String → Condition

-- The rows that it lets through, by their project.
abbrev pub holds : Condition → String → Bool
holds any_project id = true
holds unassigned id = str_eq id ""
holds (project p) id = str_eq p id
holds (one_of ids) id = id_in id ids
holds (one_of_or_unassigned ids) id = id_in id ids || str_eq id ""

abbrev one_of_text : List String → String
one_of_text ids = concat ("project_id IN (" ∷ join (placeholders ids) ∷ ")" ∷ [])

-- How it is written in SQL, with its arguments.
abbrev pub written : Condition → String × List String
written any_project = ("", [])
written unassigned = ("(project_id = '')", [])
written (project p) = ("project_id = ?", p ∷ [])
written (one_of ids) = (concat ("(" ∷ one_of_text ids ∷ ")" ∷ []), ids)
written (one_of_or_unassigned ids) =
    (concat ("(" ∷ join_with " OR " (one_of_text ids ∷ "project_id = ''" ∷ []) ∷ ")" ∷ []), ids)

-- The condition that a filter stands for.
abbrev pub condition_of : ProjectFilter → Condition
condition_of f = if not (str_eq f.project_id "") then project f.project_id else elim f.project_ids [
  | [] ↦ if f.include_unassigned then unassigned else any_project
  | x ∷ xs ↦ if f.include_unassigned then one_of_or_unassigned (x ∷ xs) else one_of (x ∷ xs)
]

-- `buildProjectFilter` writes the condition that the filter stands for.
pub build_project_filter_lem :
    (f : ProjectFilter) → build_project_filter f ≡ written (condition_of f)
unfolding build_project_filter concat
build_project_filter_lem f = elim (Bool-cases (str_eq f.project_id "")) [
  | inr named ↦ rw named refl
  | inl unnamed ↦ rw unnamed (by_ids f.project_ids f.include_unassigned)
]
  where
    by_ids :
        (ids : List String) (unassigned_too : Bool)
        → (let conditions =
              ids_condition ids ++ (if unassigned_too then "project_id = ''" ∷ [] else []) in
            if length conditions == 0
            then ("", [])
            else (concat ("(" ∷ join_with " OR " conditions ∷ ")" ∷ []), ids))
          ≡ written (elim ids [
            | [] ↦ if unassigned_too then unassigned else any_project
            | x ∷ xs ↦ if unassigned_too then one_of_or_unassigned (x ∷ xs) else one_of (x ∷ xs)
          ])
    by_ids [] true = refl
    by_ids [] false = refl
    by_ids (x ∷ xs) true = refl
    by_ids (x ∷ xs) false = refl
