-- ===== src/Alerting/Expr.antt =====
-- internal/alerting/expr_matcher.go: running a compiled expression on a log entry.
use blazelog.Base.{String, Bool, Option, none, some}
use blazelog.Base.Int.{ℤ, pos}
use blazelog.Base.Dict.{lookup}
use blazelog.Alerting.Rule.{Platform, Value, text, boolean, integer, float, ExprEnv, LogEntry}

module _ (p : Platform) where
  abbrev pub string_of : Option (Value p.Float p.Opaque) → String
  string_of (some (text s)) = s
  string_of _ = ""

  abbrev pub int_of : Option (Value p.Float p.Opaque) → ℤ
  int_of (some (integer i)) = i
  int_of (some (float f)) = p.to_int f
  int_of _ = pos 0

  -- `GetFieldString` and `GetFieldInt` of internal/models/log.go
  unfoldable pub get_field_string : LogEntry p → String → String
  get_field_string entry key = string_of (lookup key entry.fields)

  unfoldable pub get_field_int : LogEntry p → String → ℤ
  get_field_int entry key = int_of (lookup key entry.fields)

  unfoldable pub build_env_from_entry : LogEntry p → ExprEnv p.Float p.Opaque
  unfolding get_field_string get_field_int
  build_env_from_entry entry = record {
    level = p.to_lower entry.level;
    message = entry.message;
    source = entry.source;
    type = p.to_lower entry.type;
    file_path = entry.file_path;
    http_status = get_field_int entry "status";
    http_method = get_field_string entry "method";
    uri = get_field_string entry "uri";
    fields = entry.fields;
    labels = entry.labels;
  }

  abbrev pub bool_of : Option (Value p.Float p.Opaque) → Option Bool
  bool_of (some (boolean b)) = some b
  bool_of _ = none

  -- `Match`; `none` is an error.
  unfoldable pub match_expr : p.Program → LogEntry p → Option Bool
  unfolding build_env_from_entry
  match_expr program entry = bool_of (p.run_program program (build_env_from_entry entry))
