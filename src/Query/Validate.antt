-- ===== src/Query/Validate.antt =====
-- internal/query/dsl.go: which syntax trees `validateAST` takes, and `ExtractFieldInfo`. What the visitor
-- sees is the list of nodes that `ast.Walk` of github.com/expr-lang/expr visits, in its order.
pub mod Laws
pub mod Extract
use Prim.Native.String.{◌++◌ as str_append}
use blazelog.Base.{
  ℕ, ◌+◌, String, Bool, true, false, not, ◌&&◌, ◌||◌, Option, none, some, List, [], ◌∷◌, ltb,
  if◌then◌else◌, max,
}
use blazelog.Base.Dict.{lookup}
use blazelog.Query.Ast.{
  Library, Node, binary, unary, identifier, string_node, integer_node, float_node, bool_node,
  array_node, constant, call, member, nil_node, other_node, Nodes, no_nodes, cons,
}
use blazelog.Query.Fields.{
  FieldDef, FieldType, string_type, int_type, float_type, time_type, json_type, text_in,
  is_operator_allowed, allowed_functions, is_builtin_function,
}

pub data Refusal : Type 0 where
  unknown_field operator_not_allowed no_member_access function_not_allowed : String → Refusal
  too_deep too_complex : ℕ → Refusal

abbrev pub max_ast_depth : ℕ
max_ast_depth = 20

abbrev pub max_ast_nodes : ℕ
max_ast_nodes = 100

pub record FieldInfo : Type 0 where
  pub name : String
  pub column : String
  pub json_path : String
  pub type : FieldType

pub data Extraction : Type 0 where
  unknown no_access other_type : Extraction
  found : FieldInfo → Extraction

abbrev pub is_known_function : String → Bool
is_known_function name = text_in allowed_functions name || is_builtin_function name

module _ (l : Library) where
  -- The depth and the number of nodes so far, with those of a child.
  abbrev pub joined : ℕ × ℕ → ℕ × ℕ → ℕ × ℕ
  joined (depth, count) (child_depth, child_count) =
      (if ltb depth child_depth then child_depth else depth, count + child_count)

  unfoldable mutual
    -- `measureASTComplexity`
    pub measure : Node l.Float l.Opaque → ℕ → ℕ × ℕ
    measure (binary op left right) current =
        joined (joined (current + 1, 1) (measure left (current + 1))) (measure right (current + 1))
    measure (unary op operand) current = joined (current + 1, 1) (measure operand (current + 1))
    measure (array_node nodes) current = measure_all nodes current (current + 1, 1)
    measure (call callee arguments) current = measure_all arguments current (current + 1, 1)
    measure (member base property) current = joined (current + 1, 1) (measure base (current + 1))
    measure (identifier name) current = (current + 1, 1)
    measure (string_node s) current = (current + 1, 1)
    measure (integer_node i) current = (current + 1, 1)
    measure (float_node f) current = (current + 1, 1)
    measure (bool_node b) current = (current + 1, 1)
    measure (constant c) current = (current + 1, 1)
    measure nil_node current = (current + 1, 1)
    measure other_node current = (current + 1, 1)

    pub measure_all : Nodes l.Float l.Opaque → ℕ → ℕ × ℕ → ℕ × ℕ
    measure_all no_nodes current so_far = so_far
    measure_all (cons n rest) current so_far =
        measure_all rest current (joined so_far (measure n (current + 1)))

  module _ (fields : List (String × FieldDef)) where
    abbrev pub unknown_name : String → Option FieldDef → Option Refusal
    unknown_name name (some f) = none
    unknown_name name none =
        if not (is_known_function name) then some (unknown_field name) else none

    abbrev pub operand_refused : String → String → Option FieldDef → Option Refusal
    operand_refused op name none = none
    operand_refused op name (some f) =
        if not (is_operator_allowed f op) then some (operator_not_allowed name) else none

    -- One side of a comparison.
    abbrev pub operand_error : String → Node l.Float l.Opaque → Option Refusal
    operand_error op (identifier name) = operand_refused op name (lookup name fields)
    operand_error op _ = none

    abbrev pub first_error : Option Refusal → Option Refusal → Option Refusal
    first_error (some e) after = some e
    first_error none after = after

    abbrev pub access_refused : String → Option FieldDef → Option Refusal
    access_refused name none = none
    access_refused name (some f) = elim f.type [
      | json_type ↦ none
      | _ ↦ some (no_member_access name)
    ]

    abbrev pub base_error : Node l.Float l.Opaque → Option Refusal
    base_error (identifier name) = access_refused name (lookup name fields)
    base_error _ = none

    abbrev pub callee_error : Node l.Float l.Opaque → Option Refusal
    callee_error (identifier name) =
        if not (is_known_function name) then some (function_not_allowed name) else none
    callee_error _ = none

    -- The cases of `validationVisitor.Visit`.
    unfoldable pub node_error : Node l.Float l.Opaque → Option Refusal
    node_error (identifier name) = unknown_name name (lookup name fields)
    node_error (binary op left right) = first_error (operand_error op left) (operand_error op right)
    node_error (member base property) = base_error base
    node_error (call callee arguments) = callee_error callee
    node_error _ = none

    -- `Visit` on the nodes, one after the other: after an error nothing is looked at.
    unfoldable pub visit_each : List (Node l.Float l.Opaque) → Option Refusal → Option Refusal
    unfolding node_error
    visit_each [] v = v
    visit_each (n ∷ rest) (some e) = visit_each rest (some e)
    visit_each (n ∷ rest) none = visit_each rest (node_error n)

    abbrev pub complexity_error : ℕ × ℕ → Option Refusal
    complexity_error (depth, nodes) =
        if ltb max_ast_depth depth
        then some (too_deep depth)
        else if ltb max_ast_nodes nodes
        then some (too_complex nodes)
        else none

    module _ (walk : Node l.Float l.Opaque → List (Node l.Float l.Opaque)) where
      -- `validateAST`
      unfoldable pub validate : Node l.Float l.Opaque → Option Refusal
      unfolding visit_each measure
      validate n = first_error (visit_each (walk n) none) (complexity_error (measure n 0))

    abbrev pub property_or_empty : Node l.Float l.Opaque → String
    property_or_empty (string_node s) = s
    property_or_empty (identifier s) = s
    property_or_empty _ = ""

    abbrev pub identifier_info : String → Option FieldDef → Extraction
    identifier_info name none = unknown
    identifier_info name (some f) =
        found (record { name = name; column = f.column; json_path = ""; type = f.type })

    abbrev pub member_info : String → String → Option FieldDef → Extraction
    member_info name property none = other_type
    member_info name property (some f) = elim f.type [
      | json_type ↦ found (record {
        name = str_append name (str_append "." property);
        column = f.column;
        json_path = property;
        type = json_type;
      })
      | _ ↦ no_access
    ]

    -- `ExtractFieldInfo`
    unfoldable pub extract_field_info : Node l.Float l.Opaque → Extraction
    extract_field_info (identifier name) = identifier_info name (lookup name fields)
    extract_field_info (member (identifier name) property) =
        member_info name (property_or_empty property) (lookup name fields)
    extract_field_info _ = other_type
