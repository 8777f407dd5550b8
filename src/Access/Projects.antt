-- ===== src/Access/Projects.antt =====
-- internal/api/middleware/project_access.go: the projects that a user can see, and the restriction of a
-- log or an aggregation filter to them.
use blazelog.Base.{
  String, Bool, true, false, not, ◌&&◌, Option, none, some, List, [], ◌∷◌, if◌then◌else◌, length,
  ◌==◌, ltb,
}
use blazelog.Base.Dict.{str_eq}
use blazelog.Access.{role_admin, role_operator, role_viewer}

pub record ProjectAccess : Type 0 where
  pub all_projects : Bool
  pub project_ids : List String
  pub include_unassigned : Bool
  pub legacy_mode : Bool

-- What `GetProjectsForUser` answers: an error, or the projects' ids.
unfoldable pub get_project_access : String → Option (List String) → Option ProjectAccess
get_project_access role projects =
    if str_eq role role_admin
    then some (record {
      all_projects = true;
      project_ids = [];
      include_unassigned = true;
      legacy_mode = false;
    })
    else elim projects [
      | none ↦ none
      | some ids ↦
          if str_eq role role_operator && length ids == 0
          then some (record {
            all_projects = true;
            project_ids = [];
            include_unassigned = true;
            legacy_mode = true;
          })
          else if str_eq role role_operator
          then some (record {
            all_projects = false;
            project_ids = ids;
            include_unassigned = true;
            legacy_mode = false;
          })
          else if str_eq role role_viewer && ltb 0 (length ids)
          then some (record {
            all_projects = false;
            project_ids = ids;
            include_unassigned = false;
            legacy_mode = false;
          })
          else some (record {
            all_projects = false;
            project_ids = [];
            include_unassigned = true;
            legacy_mode = false;
          })
    ]

abbrev pub id_in : String → List String → Bool
id_in id [] = false
id_in id (x ∷ rest) = if str_eq x id then true else id_in id rest

unfoldable pub can_access_project : ProjectAccess → String → Bool
can_access_project pa id =
    if pa.all_projects
    then true
    else if str_eq id ""
    then pa.include_unassigned
    else id_in id pa.project_ids

-- The fields of `LogFilter` and `AggregationFilter` that say which projects.
pub record ProjectFilter : Type 0 where
  pub project_id : String
  pub project_ids : List String
  pub include_unassigned : Bool

-- `ApplyToLogFilter` and `ApplyToAggregationFilter`; none is `ErrProjectAccessDenied`.
unfoldable pub apply_to_filter : ProjectAccess → ProjectFilter → String → Option ProjectFilter
unfolding can_access_project
apply_to_filter pa filter requested =
    if pa.all_projects && str_eq requested ""
    then some filter
    else if not (str_eq requested "")
    then (if not (can_access_project pa requested)
        then none
        else some (record {
          project_id = requested;
          project_ids = filter.project_ids;
          include_unassigned = filter.include_unassigned;
        }))
    else some (record {
      project_id = filter.project_id;
      project_ids = pa.project_ids;
      include_unassigned = pa.include_unassigned;
    })
