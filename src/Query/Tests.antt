-- ===== src/Query/Tests.antt =====
-- internal/query, on small queries.
use Prim.Native.String.{◌++◌ as str_append}
use blazelog.Base.{
  ℕ, zero, suc, ◌≤◌, ◌≡◌, refl, arith, String, false, none, List, [], ◌∷◌, ◌++◌, ◌↔◌, ◌∙◌,
}
use blazelog.Base.Int.{pos, negsuc}
use blazelog.Query.Ast.{
  Library, text, integer, Node, binary, unary, identifier, string_node, integer_node, array_node,
  call, member, Nodes, no_nodes, cons,
}
use blazelog.Query.Fields.{default_fields}
use blazelog.Base.Dict.{lookup}
use blazelog.Query.Sql.{done, build, visit}
use blazelog.Query.Text.{concat}
use blazelog.Query.Sql.Tally.{occurs, occurs-append, weight}
use blazelog.Query.Sql.Tally.Visit.{build_marks, build_quotes}
use blazelog.Query.Validate.{validate}
use blazelog.Query.Validate.Laws.{validate_lem, Each, Throughout, Accepted, depth, size}

abbrev ones : ℕ → String
ones zero = "0"
ones (suc n) = str_append "1" (ones n)

abbrev library : Library
library = record {
  Float = ℕ;
  Opaque = ℕ;
  to_lower = λ s. s;
  redos_pattern = λ s. false;
  parse_duration = λ s. none;
  format_int = λ i. elim i [ pos n ↦ ones n | negsuc n ↦ ones n ];
}

ones_without_mark : (n : ℕ) → occurs b'?' (ones n) ≡ 0
ones_without_mark zero = refl
ones_without_mark (suc n) = occurs-append b'?' "1" (ones n) ∙ omega (arith, ones_without_mark n)

ones_without_quote : (n : ℕ) → occurs b'\'' (ones n) ≡ 0
ones_without_quote zero = refl
ones_without_quote (suc n) = occurs-append b'\'' "1" (ones n) ∙ omega (arith, ones_without_quote n)

-- level == "it's?" and fields.status == 500
abbrev query : Node ℕ ℕ
query =
    binary "and" (binary "==" (identifier "level") (string_node "it's?"))
      (binary "==" (member (identifier "fields") (string_node "status")) (integer_node (pos 500)))

abbrev query_sql : String
query_sql = "((lower(level) = ?) AND (JSONExtractString(fields, 'status') = ?))"

query-build :
    build library default_fields query ≡ done query_sql (text "it's?" ∷ integer (pos 500) ∷ [])
unfolding build lookup concat
query-build = refl

-- Two signs in front of a field.
negated_twice :
    build library default_fields (unary "-" (unary "-" (identifier "http_status")))
    ≡ done "--http_status" []
unfolding build lookup concat
negated_twice = refl

build_marks_example : (occurs b'?' query_sql ≡ 2) × (2 ≡ weight library 1 0 query)
build_marks_example =
    build_marks library default_fields (omega arith)
      (λ i. elim i as (λ j. occurs b'?' (library.format_int j) ≡ 0) [
        | pos n ↦ ones_without_mark n
        | negsuc n ↦ ones_without_mark n
      ])
      query query_sql (text "it's?" ∷ integer (pos 500) ∷ []) query-build

build_quotes_example : occurs b'\'' query_sql ≡ weight library 0 2 query
build_quotes_example =
    build_quotes library default_fields (omega arith)
      (λ i. elim i as (λ j. occurs b'\'' (library.format_int j) ≡ 0) [
        | pos n ↦ ones_without_quote n
        | negsuc n ↦ ones_without_quote n
      ])
      query query_sql (text "it's?" ∷ integer (pos 500) ∷ []) query-build

-- The order of ast.Walk: what stands in a node, then the node.
mutual
  walked : Node ℕ ℕ → List (Node ℕ ℕ)
  walked (binary op a b) = walked a ++ walked b ++ binary op a b ∷ []
  walked (unary op a) = walked a ++ unary op a ∷ []
  walked (array_node nodes) = walked_all nodes ++ array_node nodes ∷ []
  walked (call callee arguments) =
      walked callee ++ walked_all arguments ++ call callee arguments ∷ []
  walked (member base property) = walked base ++ walked property ++ member base property ∷ []
  walked n = n ∷ []

  walked_all : Nodes ℕ ℕ → List (Node ℕ ℕ)
  walked_all no_nodes = []
  walked_all (cons n rest) = walked n ++ walked_all rest

walked_through :
    (P : Node ℕ ℕ → Type 0)
    → Each library default_fields P (walked query) ↔ Throughout library default_fields P query
unfolding walked Throughout
walked_through P = (
  λ h. (
    h.1.1.1.1.1.1.1.1.0,
    (h.1.1.0, h.0, h.1.0),
    (h.1.1.1.1.1.1.1.0, (h.1.1.1.1.1.0, h.1.1.1.0, h.1.1.1.1.0), h.1.1.1.1.1.1.0),
  ),
  λ h. (h.1.1, (h.1.2, (h.1.0, (h.2.1.1, (h.2.1.2, (h.2.1.0, (h.2.2, (h.2.0, (h.0, tt))))))))),
)

validate_lem_example : (validate library default_fields walked query ≡ none) ↔ (
    Throughout library default_fields (Accepted library default_fields) query
    × (depth library query ≤ 20)
    × (size library query ≤ 100))
validate_lem_example = validate_lem library default_fields walked query walked_through

abbrev status : Node ℕ ℕ
status = member (identifier "fields") (string_node "status")

status-visit :
    visit library default_fields status [] ≡ done "JSONExtractString(fields, 'status')" []
unfolding visit lookup concat
status-visit = refl
