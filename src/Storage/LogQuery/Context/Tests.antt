-- ===== src/Storage/LogQuery/Context/Tests.antt =====
-- internal/storage/clickhouse.go, `GetContext`: the pages before an entry, on a few rows.
use blazelog.Base.{
  ℕ, ◌≡◌, refl, String, Bool, true, false, Option, none, some, List, [], ◌∷◌, take, ltb, ◌==◌,
  if◌then◌else◌,
}
use blazelog.Base.Dict.{str_eq}
use blazelog.Storage.LogQuery.Context.{
  Row, ContextFilter, ContextResult, Request, Source, format_cursor, parse_cursor, get_context,
}
use blazelog.Storage.LogQuery.Context.Cursor.{parse-format_cursor}
use blazelog.Storage.LogQuery.Context.Paging.{before_row, context_pages, Gives}

abbrev row : ℕ → String → Row
row t id = record { timestamp = t; id = id }

abbrev stored : List Row
stored = row 9 "f" ∷ row 8 "e" ∷ row 7 "d" ∷ row 5 "c" ∷ row 4 "b" ∷ row 2 "a" ∷ []

abbrev earlier : Row → Row → Bool
earlier r s = ltb s.timestamp r.timestamp

abbrev rows_earlier : Request → Option (List Row)
rows_earlier q = some (take q.limit (before_row earlier (row q.timestamp q.id) stored))

abbrev digit : ℕ → String
digit t = if t == 7 then "00:07" else "00:05"

abbrev time_of : String → Option ℕ
time_of s = if str_eq s "00:07" then some 7 else if str_eq s "00:05" then some 5 else none

abbrev database : Source
database = record {
  by_id = λ id. some (some (row 8 id));
  rows_before = rows_earlier;
  rows_after = λ q. some [];
  format_time = digit;
  parse_time = time_of;
}

abbrev around : ContextFilter
around = record {
  target_id = "e";
  project_id = "shop";
  agent_id = "web";
  timestamp = 8;
  before = 2;
  after = 0;
  before_cursor = "";
  after_cursor = "";
}

abbrev pages : ContextResult
pages = record {
  target = row 8 "e";
  before = row 5 "c" ∷ row 7 "d" ∷ [];
  after = [];
  has_more_before = true;
  has_more_after = false;
  before_cursor = "00:05:c";
  after_cursor = "";
}

get_around : get_context database around ≡ some (some pages)
unfolding get_context format_cursor
get_around = refl

parse-format_cursor_example : parse_cursor database (format_cursor database 7 "d") ≡ some (7, "d")
parse-format_cursor_example = parse-format_cursor database 7 "d" refl refl

context_pages_example :
    Gives database earlier 1 around (row 8 "e") stored
    × Gives database earlier 3
        (record around { before_cursor = format_cursor database 5 "c" })
        (row 8 "e")
        stored
context_pages_example =
    let later : (true ≡ true) × (false ≡ false) = (refl, refl) in
    context_pages database earlier 1 1 around stored [] (row 8 "e") (row 5 "c") (row 8 "e") refl
      (
        refl,
        (later, (later, (later, (later, (later, tt))))),
        (
          refl,
          (later, (later, (later, (later, tt)))),
          (
            refl,
            (later, (later, (later, tt))),
            (refl, (later, (later, tt)), (refl, (later, tt), (refl, tt, tt))),
          ),
        ),
      )
      (refl, refl, λ r. refl) (refl, refl) refl refl refl
