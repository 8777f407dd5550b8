-- ===== src/Query/Sql.antt =====
-- internal/query/sql_builder.go, `SQLBuilder`: a syntax tree as the text of a WHERE clause, with the
-- literals as arguments. `v.args` is handed on through the visits.
pub mod Tally
use Prim.Native.Char.{Char, code}
use Prim.Native.String.{◌++◌ as str_append}
use blazelog.Base.{
  ℕ, zero, suc, ◌+◌, ◌*◌, ◌-◌, ◌/◌, String, Bool, true, false, Option, none, some, List, [], ◌∷◌,
  ◌++◌, ltb, leb, ◌==◌, ◌&&◌, ◌||◌, not, if◌then◌else◌,
}
use blazelog.Base.Int.{ℤ, pos, negsuc}
use blazelog.Base.Dict.{str_eq, lookup}
use blazelog.Query.Ast.{
  Library, Arg, text, integer, float, opaque, Constant, items, texts, value, boolean, unsupported,
  Node, binary, unary, identifier, string_node, integer_node, float_node, bool_node, array_node,
  constant, call, member, nil_node, other_node, Nodes, no_nodes, cons,
}
use blazelog.Query.Fields.{
  FieldDef, FieldType, string_type, int_type, float_type, time_type, json_type,
}
use blazelog.Query.Text.{
  concat, join, map_operator, property_char, property_chars, is_valid_json_property_name,
  is_string_method, truncated, at_least,
}

pub data Error : Type 0 where
  unsupported_node unknown_operator unsupported_unary unknown_field unsupported_constant : Error
  unsupported_callee unsupported_function wrong_arguments invalid_duration : Error
  unsupported_member no_member_access unsupported_property invalid_property dangerous_regex : Error

module _ (l : Library) where
  pub data Result : Type 0 where
    failed : Error → Result
    done : String → List (Arg l.Float l.Opaque) → Result

  abbrev pub and_then : Result → (String → List (Arg l.Float l.Opaque) → Result) → Result
  and_then (failed e) next = failed e
  and_then (done sql args) next = next sql args

  -- The text of an interval: `durationToInterval`.
  abbrev pub duration_to_interval : ℤ → String
  duration_to_interval d =
      if at_least d 86_400_000_000_000
      then concat ("INTERVAL " ∷ l.format_int (truncated d 86_400_000_000_000) ∷ " DAY" ∷ [])
      else if at_least d 3_600_000_000_000
      then concat ("INTERVAL " ∷ l.format_int (truncated d 3_600_000_000_000) ∷ " HOUR" ∷ [])
      else if at_least d 60_000_000_000
      then concat ("INTERVAL " ∷ l.format_int (truncated d 60_000_000_000) ∷ " MINUTE" ∷ [])
      else concat ("INTERVAL " ∷ l.format_int (truncated d 1_000_000_000) ∷ " SECOND" ∷ [])

  -- Texts are lowered, other values are passed on as they are.
  abbrev pub lowered : Arg l.Float l.Opaque → Arg l.Float l.Opaque
  lowered (text s) = text (l.to_lower s)
  lowered (integer i) = integer i
  lowered (float f) = float f
  lowered (opaque o) = opaque o

  abbrev pub marks_of {ℓ} : {A : Type ℓ} → List A → List String
  marks_of [] = []
  marks_of (x ∷ xs) = "?" ∷ marks_of xs

  abbrev pub lowered_all : List (Arg l.Float l.Opaque) → List (Arg l.Float l.Opaque)
  lowered_all [] = []
  lowered_all (x ∷ xs) = lowered x ∷ lowered_all xs

  abbrev pub lowered_texts : List String → List (Arg l.Float l.Opaque)
  lowered_texts [] = []
  lowered_texts (s ∷ rest) = text (l.to_lower s) ∷ lowered_texts rest

  abbrev pub visit_bool : Bool → List (Arg l.Float l.Opaque) → Result
  visit_bool b args = done (if b then "1" else "0") args

  abbrev pub visit_constant : Constant l.Float l.Opaque → List (Arg l.Float l.Opaque) → Result
  visit_constant (items xs) args =
      done (concat ("(" ∷ join (marks_of xs) ∷ ")" ∷ [])) (args ++ lowered_all xs)
  visit_constant (texts xs) args =
      done (concat ("(" ∷ join (marks_of xs) ∷ ")" ∷ [])) (args ++ lowered_texts xs)
  visit_constant (value (opaque o)) args = failed unsupported_constant
  visit_constant (value (text s)) args = done "?" (args ++ text (l.to_lower s) ∷ [])
  visit_constant (value (integer i)) args = done "?" (args ++ integer i ∷ [])
  visit_constant (value (float f)) args = done "?" (args ++ float f ∷ [])
  visit_constant (boolean b) args = visit_bool b args
  visit_constant unsupported args = failed unsupported_constant

  module _ (fields : List (String × FieldDef)) where
    -- `isStringField`
    abbrev pub is_string_type : Option FieldDef → Bool
    is_string_type none = false
    is_string_type (some f) = elim f.type [ string_type ↦ true | _ ↦ false ]

    abbrev pub is_string_field : Node l.Float l.Opaque → Bool
    is_string_field (identifier name) = is_string_type (lookup name fields)
    is_string_field _ = false

    abbrev pub is_dangerous : Node l.Float l.Opaque → Bool
    is_dangerous (string_node s) = l.redos_pattern s
    is_dangerous _ = false

    -- `handleStringMethod` below its visits
    abbrev pub string_method :
        String → Node l.Float l.Opaque → String → String → List (Arg l.Float l.Opaque) → Result
    string_method op right_node left right args =
        if str_eq op "contains"
        then done (concat ("position(lower(" ∷ left ∷ "), " ∷ right ∷ ") > 0" ∷ [])) args
        else if str_eq op "startsWith"
        then done (concat ("startsWith(lower(" ∷ left ∷ "), " ∷ right ∷ ")" ∷ [])) args
        else if str_eq op "endsWith"
        then done (concat ("endsWith(lower(" ∷ left ∷ "), " ∷ right ∷ ")" ∷ [])) args
        else if is_dangerous right_node
        then failed dangerous_regex
        else done (concat ("match(lower(" ∷ left ∷ "), " ∷ right ∷ ")" ∷ [])) args

    -- `visitBinary` below its visits
    abbrev pub compared :
        String
        → Node l.Float l.Opaque
        → String
        → String
        → List (Arg l.Float l.Opaque)
        → Option String
        → Result
    compared op left_node left right args none = failed unknown_operator
    compared op left_node left right args (some sql_op) =
        done
          (concat (
            "("
            ∷ (if is_string_field left_node && (str_eq op "==" || str_eq op "!=")
                then concat ("lower(" ∷ left ∷ ")" ∷ [])
                else left)
            ∷ " "
            ∷ sql_op
            ∷ " "
            ∷ right
            ∷ ")"
            ∷ []))
          args

    abbrev pub binary_sql :
        String
        → Node l.Float l.Opaque
        → Node l.Float l.Opaque
        → String
        → String
        → List (Arg l.Float l.Opaque)
        → Result
    binary_sql op left_node right_node left right args =
        if is_string_method op
        then string_method op right_node left right args
        else if str_eq op "in"
        then done (concat (left ∷ " IN " ∷ right ∷ [])) args
        else compared op left_node left right args (map_operator op)

    abbrev pub unary_sql : String → String → List (Arg l.Float l.Opaque) → Result
    unary_sql op operand args =
        if str_eq op "not" || str_eq op "!"
        then done (concat ("NOT (" ∷ operand ∷ ")" ∷ [])) args
        else if str_eq op "-"
        then done (concat ("-" ∷ operand ∷ [])) args
        else failed unsupported_unary

    abbrev pub column_of : Option FieldDef → List (Arg l.Float l.Opaque) → Result
    column_of none args = failed unknown_field
    column_of (some f) args = done f.column args

    abbrev pub property_name : Node l.Float l.Opaque → Option String
    property_name (string_node s) = some s
    property_name (identifier s) = some s
    property_name _ = none

    abbrev pub extracted : FieldDef → Option String → List (Arg l.Float l.Opaque) → Result
    extracted f none args = failed unsupported_property
    extracted f (some name) args =
        if is_valid_json_property_name name
        then done (concat ("JSONExtractString(" ∷ f.column ∷ ", '" ∷ name ∷ "')" ∷ [])) args
        else failed invalid_property

    abbrev pub member_of : Option FieldDef → Option String → List (Arg l.Float l.Opaque) → Result
    member_of none name args = failed unknown_field
    member_of (some f) name args = elim f.type [
      | json_type ↦ extracted f name args
      | _ ↦ failed no_member_access
    ]

    abbrev pub visit_member :
        Node l.Float l.Opaque → Node l.Float l.Opaque → List (Arg l.Float l.Opaque) → Result
    visit_member (identifier name) property args =
        member_of (lookup name fields) (property_name property) args
    visit_member _ property args = failed unsupported_member

    abbrev pub duration_text : Nodes l.Float l.Opaque → Option String
    duration_text (cons (string_node s) no_nodes) = some s
    duration_text _ = none

    abbrev pub duration_sql : Option String → List (Arg l.Float l.Opaque) → Result
    duration_sql none args = failed wrong_arguments
    duration_sql (some s) args = elim (l.parse_duration s) [
      | none ↦ failed invalid_duration
      | some d ↦ done (duration_to_interval d) args
    ]

    -- A function of one argument that was visited.
    abbrev pub applied : String → Option Result → Result
    applied sql_name none = failed wrong_arguments
    applied sql_name (some r) =
        and_then r (λ arg args. done (concat (sql_name ∷ "(" ∷ arg ∷ ")" ∷ [])) args)

    abbrev pub call_sql :
        String → Nodes l.Float l.Opaque → Option Result → List (Arg l.Float l.Opaque) → Result
    call_sql name arguments visited args =
        if str_eq name "now"
        then done "now()" args
        else if str_eq name "duration"
        then duration_sql (duration_text arguments) args
        else if str_eq name "lower"
        then applied "lower" visited
        else if str_eq name "upper"
        then applied "upper" visited
        else if str_eq name "len"
        then applied "length" visited
        else failed unsupported_function

    unfoldable mutual
      pub visit : Node l.Float l.Opaque → List (Arg l.Float l.Opaque) → Result
      visit (binary op left right) args = and_then (visit left args) (λ left_sql args1.
          and_then (visit right args1)
            (λ right_sql args2. binary_sql op left right left_sql right_sql args2))
      visit (unary op operand) args =
          and_then (visit operand args) (λ sql args1. unary_sql op sql args1)
      visit (identifier name) args = column_of (lookup name fields) args
      visit (string_node s) args = done "?" (args ++ text (l.to_lower s) ∷ [])
      visit (integer_node i) args = done "?" (args ++ integer i ∷ [])
      visit (float_node f) args = done "?" (args ++ float f ∷ [])
      visit (bool_node b) args = visit_bool b args
      visit (array_node nodes) args =
          and_then (visit_all nodes args)
            (λ parts args1. done (concat ("(" ∷ parts ∷ ")" ∷ [])) args1)
      visit (constant c) args = visit_constant c args
      visit (call (identifier name) arguments) args =
          call_sql name arguments (visit_single arguments args) args
      visit (call _ arguments) args = failed unsupported_callee
      visit (member base property) args = visit_member base property args
      visit nil_node args = done "NULL" args
      visit other_node args = failed unsupported_node

      -- The parts of an array, joined.
      pub visit_all : Nodes l.Float l.Opaque → List (Arg l.Float l.Opaque) → Result
      visit_all no_nodes args = done "" args
      visit_all (cons n no_nodes) args = visit n args
      visit_all (cons n (cons m rest)) args = and_then (visit n args) (λ part args1.
          and_then (visit_all (cons m rest) args1)
            (λ parts args2. done (concat (part ∷ ", " ∷ parts ∷ [])) args2))

      -- The only argument of a call.
      pub visit_single : Nodes l.Float l.Opaque → List (Arg l.Float l.Opaque) → Option Result
      visit_single no_nodes args = none
      visit_single (cons n no_nodes) args = some (visit n args)
      visit_single (cons n (cons _ _)) args = none

    -- `Build`
    unfoldable pub build : Node l.Float l.Opaque → Result
    unfolding visit
    build node = visit node []
