-- ===== src/Storage/LogQuery.antt =====
-- internal/storage/clickhouse.go, `buildQuery`, `buildProjectFilter` and `Query`: a filter as the text of
-- an SQL query and its arguments, and the pages of the answer.
pub mod Where
pub mod Marks
pub mod Pages
pub mod Context
mod Tests
use Prim.Native.String.{◌++◌ as str_append}
use blazelog.Base.{
  ℕ, ◌+◌, String, Bool, true, false, not, ◌&&◌, ◌||◌, Option, none, some, List, [], ◌∷◌, ◌++◌,
  if◌then◌else◌, length, ◌==◌, ltb, take,
}
use blazelog.Base.Dict.{str_eq, lookup}
use blazelog.Query.Text.{concat, join}
use blazelog.Access.Projects.{ProjectFilter}

-- An argument of a query: a time, a text, or what the query language's builder made.
pub data Argument (A : Type 0) : Type 0 where
  time : ℕ → Argument A
  text : String → Argument A
  built : A → Argument A

-- `SearchMode`
pub data SearchMode : Type 0 where
  token substring phrase : SearchMode

-- `LogFilter`; a time is none when `IsZero` holds. The handlers make no negative limit or offset.
pub record LogFilter (A : Type 0) : Type 0 where
  pub projects : ProjectFilter
  pub start_time : Option ℕ
  pub end_time : Option ℕ
  pub agent_id : String
  pub level : String
  pub levels : List String
  pub type : String
  pub types : List String
  pub source : String
  pub file_path : String
  pub message_contains : String
  pub search_mode : SearchMode
  pub limit : ℕ
  pub offset : ℕ
  pub order_by : String
  pub order_desc : Bool
  pub filter_sql : String
  pub filter_args : List A

-- `strings.Join(parts, separator)`
unfoldable pub join_with : String → List String → String
join_with separator [] = ""
join_with separator (s ∷ []) = s
join_with separator (s ∷ t ∷ rest) =
    str_append s (str_append separator (join_with separator (t ∷ rest)))

abbrev pub placeholders : List String → List String
placeholders [] = []
placeholders (x ∷ xs) = "?" ∷ placeholders xs

abbrev pub ids_condition : List String → List String
ids_condition [] = []
ids_condition (x ∷ xs) = concat ("project_id IN (" ∷ join (placeholders (x ∷ xs)) ∷ ")" ∷ []) ∷ []

-- `buildProjectFilter` and `buildAggregationProjectFilter`
unfoldable pub build_project_filter : ProjectFilter → String × List String
unfolding join_with
build_project_filter f =
    if not (str_eq f.project_id "")
    then ("project_id = ?", f.project_id ∷ [])
    else let conditions =
        ids_condition f.project_ids
        ++ (if f.include_unassigned then "project_id = ''" ∷ [] else []) in
      if length conditions == 0
      then ("", [])
      else (concat ("(" ∷ join_with " OR " conditions ∷ ")" ∷ []), f.project_ids)

-- The conditions so far, and their arguments.
abbrev pub Clauses : Type 0 → Type 0
Clauses A = List String × List (Argument A)

abbrev pub clause : String → List String → String
clause keyword [] = ""
clause keyword (c ∷ rest) = str_append keyword (join_with " AND " (c ∷ rest))

abbrev pub allowed_order_columns : List (String × String)
allowed_order_columns =
    ("timestamp", "timestamp")
    ∷ ("level", "level")
    ∷ ("source", "source")
    ∷ ("type", "type")
    ∷ ("agent_id", "agent_id")
    ∷ ("http_status", "http_status")
    ∷ []

abbrev pub or_timestamp : Option String → String
or_timestamp (some column) = column
or_timestamp none = "timestamp"

abbrev pub order_column : String → String
order_column order_by =
    if not (str_eq order_by "")
    then or_timestamp (lookup order_by allowed_order_columns)
    else "timestamp"

abbrev pub selected : String
selected =
    "\n\t\t\tSELECT id, project_id, timestamp, level, message, source, type, raw,\n\t\t\t       agent_id, file_path, line_number, fields, labels,\n\t\t\t       http_status, http_method, uri\n\t\t\tFROM logs\n\t\t"

module _ {A : Type 0} where
  abbrev pub texts : List String → List (Argument A)
  texts [] = []
  texts (s ∷ rest) = text s ∷ texts rest

  abbrev pub builts : List A → List (Argument A)
  builts [] = []
  builts (a ∷ rest) = built a ∷ builts rest

  abbrev pub add : String → List (Argument A) → Clauses A → Clauses A
  add condition more (conditions, args) = (conditions ++ condition ∷ [], args ++ more)

  -- `if value != "" { … }`
  abbrev pub add_text : String → String → Clauses A → Clauses A
  add_text condition value c =
      if not (str_eq value "") then add condition (text value ∷ []) c else c

  abbrev pub add_in : String → List String → Clauses A → Clauses A
  add_in column [] c = c
  add_in column (x ∷ xs) c =
      add (concat (column ∷ " IN (" ∷ join (placeholders (x ∷ xs)) ∷ ")" ∷ [])) (texts (x ∷ xs)) c

  abbrev pub add_time : String → Option ℕ → Clauses A → Clauses A
  add_time condition none c = c
  add_time condition (some t) c = add condition (time t ∷ []) c

  abbrev pub add_words : List String → Clauses A → Clauses A
  add_words [] c = c
  add_words (word ∷ rest) c = add_words rest (add "hasToken(message, ?)" (text word ∷ []) c)

  -- `words` stands for `strings.Fields`.
  module _ (words : String → List String) where
    abbrev pub add_message : SearchMode → String → Clauses A → Clauses A
    add_message substring message c = add "position(message, ?) > 0" (text message ∷ []) c
    add_message phrase message c = add_words (words message) c
    add_message token message c = add "hasToken(message, ?)" (text message ∷ []) c

    abbrev pub add_flat : LogFilter A → Clauses A → Clauses A
    add_flat f c =
        let c1 = add_text "agent_id = ?" f.agent_id c in
        let c2 = add_in "level" f.levels (add_text "level = ?" f.level c1) in
        let c3 = add_in "type" f.types (add_text "type = ?" f.type c2) in
        let c4 = add_text "file_path = ?" f.file_path (add_text "source = ?" f.source c3) in
        if not (str_eq f.message_contains "")
        then add_message f.search_mode f.message_contains c4
        else c4

    abbrev pub add_projects : String × List String → Clauses A → Clauses A
    add_projects (condition, args) c =
        if not (str_eq condition "") then add condition (texts args) c else c

    -- The WHERE clause.
    unfoldable pub where_clauses : LogFilter A → Clauses A
    unfolding build_project_filter
    where_clauses f =
        let c = add_projects (build_project_filter f.projects) ([], []) in
        if not (str_eq f.filter_sql "")
        then add (concat ("(" ∷ f.filter_sql ∷ ")" ∷ [])) (builts f.filter_args) c
        else add_flat f c

    -- The PREWHERE clause.
    unfoldable pub prewhere_clauses : LogFilter A → Clauses A
    prewhere_clauses f =
        add_time "timestamp <= ?" f.end_time (add_time "timestamp >= ?" f.start_time ([], []))

    abbrev pub order_direction : LogFilter A → String
    order_direction f = if not f.order_desc && not (str_eq f.order_by "") then "ASC" else "DESC"

    -- `format` prints a decimal number.
    module _ (format : ℕ → String) where
      abbrev pub paging : LogFilter A → String
      paging f = concat (
          " LIMIT "
          ∷ format (if f.limit == 0 then 100 else f.limit)
          ∷ (if ltb 0 f.offset then str_append " OFFSET " (format f.offset) else "")
          ∷ [])

      unfoldable pub build_query : LogFilter A → Bool → String × List (Argument A)
      unfolding where_clauses prewhere_clauses
      build_query f count_only =
          let (early, early_args) = prewhere_clauses f in
          let (late, late_args) = where_clauses f in
          let body = concat (
            (if count_only then "SELECT count() FROM logs" else selected)
            ∷ clause " PREWHERE " early
            ∷ clause " WHERE " late
            ∷ []) in
          if count_only then (body, early_args ++ late_args) else (
            concat (
                body
                ∷ " ORDER BY "
                ∷ order_column f.order_by
                ∷ " "
                ∷ order_direction f
                ∷ paging f
                ∷ []),
            early_args ++ late_args,
          )
