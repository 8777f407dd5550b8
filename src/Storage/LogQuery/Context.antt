-- ===== src/Storage/LogQuery/Context.antt =====
-- internal/storage/clickhouse.go, `GetContext`, `formatCursor` and `parseCursor`: the log entries around
-- one, page by page.
pub mod Cursor
pub mod Paging
mod Tests
use Prim.Native.Char.{Char, code}
use Prim.Native.String.{◌++◌ as str_append}
use blazelog.Base.{
  ℕ, ◌+◌, ◌-◌, String, Bool, true, false, not, ◌&&◌, ◌||◌, Option, none, some, List, [], ◌∷◌, ◌++◌,
  length, take, ltb, ◌==◌, if◌then◌else◌,
}
use blazelog.Base.Dict.{str_eq}

-- A row, by what the queries order it by.
pub record Row : Type 0 where
  pub timestamp : ℕ
  pub id : String

pub record ContextFilter : Type 0 where
  pub target_id : String
  pub project_id : String
  pub agent_id : String
  pub timestamp : ℕ
  pub before : ℕ
  pub after : ℕ
  pub before_cursor : String
  pub after_cursor : String

pub record ContextResult : Type 0 where
  pub target : Row
  pub before : List Row
  pub after : List Row
  pub has_more_before : Bool
  pub has_more_after : Bool
  pub before_cursor : String
  pub after_cursor : String

-- The arguments of one of the two queries, times as nanoseconds: the window, the project and the agent, the cursor and the
-- limit.
pub record Request : Type 0 where
  pub window_start : ℕ
  pub window_end : ℕ
  pub project_id : String
  pub agent_id : String
  pub timestamp : ℕ
  pub id : String
  pub limit : ℕ

-- What the driver answers: `GetByID`, the query of the rows before the cursor, latest first, and that of
-- the rows after it, earliest first; none is an error. With it the printing and the parsing of a time.
pub record Source : Type 0 where
  pub by_id : String → Option (Option Row)
  pub rows_before : Request → Option (List Row)
  pub rows_after : Request → Option (List Row)
  pub format_time : ℕ → String
  pub parse_time : String → Option ℕ

-- The texts before and behind the last colon.
abbrev pub around_colon : Char → String → Option (String × String) → Option (String × String)
around_colon d s (some (a, b)) = some (String.◌∷◌ d a, b)
around_colon d s none = if code d == b':' then some ("", s) else none

unfoldable pub last_colon : String → Option (String × String)
last_colon String.[] = none
last_colon (String.◌∷◌ d s) = around_colon d s (last_colon s)

abbrev pub minimum_50 : ℕ → ℕ
minimum_50 n = if ltb 50 n then 50 else n

abbrev pub one_hour : ℕ
one_hour = 3_600_000_000_000

-- The rows of a page, latest or earliest first as they were fetched, and whether there are more.
abbrev pub trimmed : ℕ → List Row → List Row × Bool
trimmed n rows = if ltb n (length rows) then (take n rows, true) else (rows, false)

abbrev pub last_of : List Row → Option Row
last_of [] = none
last_of (r ∷ []) = some r
last_of (r ∷ s ∷ rest) = last_of (s ∷ rest)

-- The loop that swaps both ends of the slice.
abbrev pub reversed : List Row → List Row
reversed [] = []
reversed (r ∷ rest) = reversed rest ++ r ∷ []

abbrev pub clamped : ContextFilter → ContextFilter
clamped f = record f { before = minimum_50 f.before; after = minimum_50 f.after }

abbrev pub empty_result : Row → ContextResult
empty_result target = record {
  target = target;
  before = [];
  after = [];
  has_more_before = false;
  has_more_after = false;
  before_cursor = "";
  after_cursor = "";
}

module _ (src : Source) where
  unfoldable pub format_cursor : ℕ → String → String
  format_cursor t id = str_append (src.format_time t) (str_append ":" id)

  abbrev pub with_time : Option ℕ → String → Option (ℕ × String)
  with_time none id = none
  with_time (some t) id = some (t, id)

  abbrev pub parsed_at : Option (String × String) → Option (ℕ × String)
  parsed_at none = none
  parsed_at (some (time, id)) = with_time (src.parse_time time) id

  unfoldable pub parse_cursor : String → Option (ℕ × String)
  unfolding last_colon
  parse_cursor cursor = parsed_at (last_colon cursor)

  abbrev pub or_anchor : ContextFilter → Option (ℕ × String) → ℕ × String
  or_anchor f none = (f.timestamp, f.target_id)
  or_anchor f (some c) = c

  abbrev pub start_of : ContextFilter → String → ℕ × String
  start_of f cursor =
      if not (str_eq cursor "")
      then or_anchor f (parse_cursor cursor)
      else (f.timestamp, f.target_id)

  abbrev pub cursor_of : Option Row → String
  cursor_of none = ""
  cursor_of (some r) = format_cursor r.timestamp r.id

  -- The query of the rows before the anchor, or before the cursor.
  abbrev pub request_before : ContextFilter → Request
  request_before f =
      let start = start_of f f.before_cursor in
      record {
        window_start = f.timestamp - one_hour;
        window_end = f.timestamp;
        project_id = f.project_id;
        agent_id = f.agent_id;
        timestamp = start.0;
        id = start.1;
        limit = f.before + 1;
      }

  abbrev pub request_after : ContextFilter → Request
  request_after f =
      let start = start_of f f.after_cursor in
      record {
        window_start = f.timestamp;
        window_end = f.timestamp + one_hour;
        project_id = f.project_id;
        agent_id = f.agent_id;
        timestamp = start.0;
        id = start.1;
        limit = f.after + 1;
      }

  -- The page, earliest first, whether there are more, and the cursor of the next page.
  abbrev pub put_before : ContextFilter → ContextResult → List Row → ContextResult
  put_before f result rows =
      let page = trimmed f.before rows in
      record result {
        before = reversed page.0;
        has_more_before = page.1;
        before_cursor = cursor_of (last_of page.0);
      }

  abbrev pub put_after : ContextFilter → ContextResult → List Row → ContextResult
  put_after f result rows =
      let page = trimmed f.after rows in
      record result {
        after = page.0;
        has_more_after = page.1;
        after_cursor = cursor_of (last_of page.0);
      }

  abbrev pub fill_before : ContextFilter → ContextResult → Option ContextResult
  fill_before f result =
      if ltb 0 f.before
      then elim (src.rows_before (request_before f)) [
        | none ↦ none
        | some rows ↦ some (put_before f result rows)
      ]
      else some result

  abbrev pub fill_after : ContextFilter → Option ContextResult → Option ContextResult
  fill_after f none = none
  fill_after f (some result) =
      if ltb 0 f.after
      then elim (src.rows_after (request_after f)) [
        | none ↦ none
        | some rows ↦ some (put_after f result rows)
      ]
      else some result

  -- `GetContext`: an error, no target, or the rows
  unfoldable pub get_context : ContextFilter → Option (Option ContextResult)
  unfolding parse_cursor format_cursor
  get_context filter =
      let f = clamped filter in
      elim (src.by_id f.target_id) [
        | none ↦ none
        | some none ↦ some none
        | some (some target) ↦ elim (fill_after f (fill_before f (empty_result target))) [
          | none ↦ none
          | some result ↦ some (some result)
        ]
      ]
