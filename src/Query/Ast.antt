-- ===== src/Query/Ast.antt =====
-- The syntax trees of github.com/expr-lang/expr/ast that internal/query walks, and the library calls
-- of its SQL builder.
use blazelog.Base.{String, Bool, Option, List}
use blazelog.Base.Int.{ℤ}

-- What an argument of a query to the database can be.
pub data Arg (Float Opaque : Type 0) : Type 0 where
  text : String → Arg Float Opaque
  integer : ℤ → Arg Float Opaque
  float : Float → Arg Float Opaque
  opaque : Opaque → Arg Float Opaque

-- The value of a ConstantNode, by the cases of its type switch. `texts` is a map[string]struct{}, in
-- the order of `range`.
pub data Constant (Float Opaque : Type 0) : Type 0 where
  items : List (Arg Float Opaque) → Constant Float Opaque
  texts : List String → Constant Float Opaque
  value : Arg Float Opaque → Constant Float Opaque
  boolean : Bool → Constant Float Opaque
  unsupported : Constant Float Opaque

mutual
  pub data Node (Float Opaque : Type 0) : Type 0 where
    binary : String → Node Float Opaque → Node Float Opaque → Node Float Opaque
    unary : String → Node Float Opaque → Node Float Opaque
    identifier : String → Node Float Opaque
    string_node : String → Node Float Opaque
    integer_node : ℤ → Node Float Opaque
    float_node : Float → Node Float Opaque
    bool_node : Bool → Node Float Opaque
    array_node : Nodes Float Opaque → Node Float Opaque
    constant : Constant Float Opaque → Node Float Opaque
    call : Node Float Opaque → Nodes Float Opaque → Node Float Opaque
    member : Node Float Opaque → Node Float Opaque → Node Float Opaque
    nil_node : Node Float Opaque
    other_node : Node Float Opaque

  pub data Nodes (Float Opaque : Type 0) : Type 0 where
    no_nodes : Nodes Float Opaque
    cons : Node Float Opaque → Nodes Float Opaque → Nodes Float Opaque

-- `strings.ToLower`, the pattern that looks for nested quantifiers, `time.ParseDuration` and the
-- printing of a decimal number.
pub record Library : Type 1 where
  pub Float : Type 0
  pub Opaque : Type 0
  pub to_lower : String → String
  pub redos_pattern : String → Bool
  pub parse_duration : String → Option ℤ
  pub format_int : ℤ → String
