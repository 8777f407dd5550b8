-- ===== src/Query/Fields.antt =====
-- internal/query/fields.go: the fields that a query may name.
use blazelog.Base.{String, Bool, false, List, [], ◌∷◌, ◌||◌}
use blazelog.Base.Dict.{str_eq}

pub data FieldType : Type 0 where
  string_type int_type float_type time_type json_type : FieldType

pub record FieldDef : Type 0 where
  pub name : String
  pub column : String
  pub type : FieldType
  pub operators : List String

abbrev pub text_in : List String → String → Bool
text_in [] s = false
text_in (x ∷ xs) s = str_eq x s || text_in xs s

unfoldable pub is_operator_allowed : FieldDef → String → Bool
is_operator_allowed f op = text_in f.operators op

abbrev pub allowed_functions : List String
allowed_functions = "now" ∷ "duration" ∷ []

-- `isBuiltinFunction` of internal/query/dsl.go
abbrev pub builtins : List String
builtins =
    "len" ∷ "lower" ∷ "upper" ∷ "trim" ∷ "int" ∷ "float" ∷ "string" ∷ "bool" ∷ "abs" ∷ "ceil"
    ∷ "floor" ∷ "round" ∷ "min" ∷ "max" ∷ []

unfoldable pub is_builtin_function : String → Bool
is_builtin_function name = text_in builtins name

abbrev pub ordering : List String
ordering = ">=" ∷ "<=" ∷ ">" ∷ "<" ∷ []

abbrev text_field : String → List String → String × FieldDef
text_field name operators =
    (name, record { name = name; column = name; type = string_type; operators = operators })

abbrev pub default_fields : List (String × FieldDef)
default_fields =
    text_field "project_id" ("==" ∷ "!=" ∷ "in" ∷ [])
    ∷ text_field "level" ("==" ∷ "!=" ∷ "in" ∷ [])
    ∷ text_field "message" ("==" ∷ "!=" ∷ "contains" ∷ "startsWith" ∷ "endsWith" ∷ "matches" ∷ [])
    ∷ text_field "source" ("==" ∷ "!=" ∷ "in" ∷ "contains" ∷ [])
    ∷ text_field "type" ("==" ∷ "!=" ∷ "in" ∷ [])
    ∷ text_field "agent_id" ("==" ∷ "!=" ∷ "in" ∷ [])
    ∷ text_field "file_path" ("==" ∷ "!=" ∷ "contains" ∷ "startsWith" ∷ "endsWith" ∷ [])
    ∷ (
      "timestamp",
      record { name = "timestamp"; column = "timestamp"; type = time_type; operators = ordering },
    )
    ∷ (
      "http_status",
      record {
        name = "http_status";
        column = "http_status";
        type = int_type;
        operators = "==" ∷ "!=" ∷ ">=" ∷ "<=" ∷ ">" ∷ "<" ∷ "in" ∷ [];
      },
    )
    ∷ text_field "http_method" ("==" ∷ "!=" ∷ "in" ∷ [])
    ∷ text_field "uri" ("==" ∷ "!=" ∷ "contains" ∷ "startsWith" ∷ "endsWith" ∷ "matches" ∷ [])
    ∷ (
      "fields",
      record {
        name = "fields";
        column = "fields";
        type = json_type;
        operators = "==" ∷ "!=" ∷ ">=" ∷ "<=" ∷ ">" ∷ "<" ∷ "in" ∷ "contains" ∷ [];
      },
    )
    ∷ (
      "labels",
      record {
        name = "labels";
        column = "labels";
        type = json_type;
        operators = "==" ∷ "!=" ∷ "in" ∷ "contains" ∷ [];
      },
    )
    ∷ []
