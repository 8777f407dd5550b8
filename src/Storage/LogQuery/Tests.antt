-- ===== src/Storage/LogQuery/Tests.antt =====
-- internal/storage/clickhouse.go, on small filters.
use Prim.Native.String.{◌++◌ as str_append}
use blazelog.Base.{
  ℕ, zero, suc, ◌≡◌, ◌∙◌, refl, arith, length, String, true, false, ◌&&◌, none, some, List, [], ◌∷◌,
}
use blazelog.Query.Sql.Tally.{occurs-append}
use blazelog.Access.Projects.{
  ProjectAccess, ProjectFilter, get_project_access, apply_to_filter, can_access_project,
}
use blazelog.Storage.LogQuery.{LogFilter, token, build_query, build_project_filter}
use blazelog.Storage.LogQuery.Where.{condition_of, written, holds}
use blazelog.Storage.LogQuery.Where.Access.{unrestricted, restricted-holds}
use blazelog.Storage.LogQuery.Marks.{marks-build_query}
use blazelog.Storage.LogQuery.Marks.Texts.{marks}
use blazelog.Storage.LogQuery.Pages.{Database}

abbrev assigned : List String
assigned = "shop" ∷ "blog" ∷ []

abbrev operator_access : ProjectAccess
operator_access = record {
  all_projects = false;
  project_ids = assigned;
  include_unassigned = true;
  legacy_mode = false;
}

abbrev operator_filter : ProjectFilter
operator_filter = record { project_id = ""; project_ids = assigned; include_unassigned = true }

access_of_operator : get_project_access "operator" (some assigned) ≡ some operator_access
unfolding get_project_access
access_of_operator = refl

filter_of_operator : apply_to_filter operator_access unrestricted "" ≡ some operator_filter
unfolding apply_to_filter
filter_of_operator = refl

restricted-holds_example :
    (build_project_filter operator_filter ≡ written (condition_of operator_filter))
    × (holds (condition_of operator_filter) "secret"
        ≡ (can_access_project operator_access "secret" && true))
restricted-holds_example =
    restricted-holds "operator" assigned operator_access "" operator_filter "secret"
      (refl, (refl, tt)) access_of_operator filter_of_operator

abbrev one_words : String → List String
one_words s = s ∷ []

abbrev ones : ℕ → String
ones zero = "0"
ones (suc n) = str_append "1" (ones n)

ones_plain : (n : ℕ) → marks (ones n) ≡ 0
ones_plain zero = refl
ones_plain (suc n) = occurs-append b'?' "1" (ones n) ∙ omega (arith, ones_plain n)

abbrev filter : LogFilter ℕ
filter = record {
  projects = operator_filter;
  start_time = some 5;
  end_time = none;
  agent_id = "";
  level = "error";
  levels = [];
  type = "";
  types = [];
  source = "";
  file_path = "";
  message_contains = "";
  search_mode = token;
  limit = 2;
  offset = 1;
  order_by = "level";
  order_desc = false;
  filter_sql = "(level = ?)";
  filter_args = 7 ∷ [];
}

marks-build_query_example :
    marks (build_query one_words ones filter false).0
    ≡ length (build_query one_words ones filter false).1
marks-build_query_example = marks-build_query one_words ones ones_plain filter false refl

abbrev four : List ℕ
four = 10 ∷ 20 ∷ 30 ∷ 40 ∷ []

abbrev database : Database ℕ ℕ
database = record { rows = λ q. some (20 ∷ 30 ∷ 40 ∷ []); total = λ q. some 4 }
