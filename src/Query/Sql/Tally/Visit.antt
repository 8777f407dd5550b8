-- ===== src/Query/Sql/Tally/Visit.antt =====
-- sql_builder.go, `Build`: the marks and the quotes in the text that it makes.
use blazelog.Base.{
  ℕ, ◌+◌, ◌≡◌, refl, sym, subst, ◌∙◌, String, false, some, List, [], ◌∷◌, length, arith,
}
use blazelog.Base.Int.{ℤ}
use blazelog.Base.Dict.{lookup}
use blazelog.Query.Ast.{
  Library, Arg, text, integer, float, Node, binary, unary, identifier, string_node, integer_node,
  float_node, bool_node, array_node, constant, call, member, nil_node, other_node, Nodes, no_nodes,
  cons,
}
use blazelog.Query.Fields.{FieldDef}
use blazelog.Query.Sql.{
  Result, done, visit_bool, column_of, visit_member, visit, visit_all, visit_single, build,
}
use blazelog.Query.Text.{property_char}
use blazelog.Query.Sql.Tally.{
  occurs, occurs-concat, Absent, weight, weight_all, ColumnsWithout, Tallied, and_then-Tallied,
}
use blazelog.Query.Sql.Tally.{Absent-mark}
use blazelog.Query.Sql.Tally.Operators.{binary_sql-Tallied, unary_sql-Tallied}
use blazelog.Query.Sql.Tally.Literals.{
  visit_constant-Tallied, column_of-Tallied, visit_bool-Tallied, literal-Tallied,
}
use blazelog.Query.Sql.Tally.Calls.{visit_member-Tallied, call_sql-Tallied}

Absent-quote : Absent b'\''
Absent-quote = omega arith

module _ (l : Library) where
  module _ (c : ℕ) (h : Absent c) (fields : List (String × FieldDef))
      (columns : ColumnsWithout l c fields) (numbers : (i : ℤ) → occurs c (l.format_int i) ≡ 0)
      (special : property_char c ≡ false) where
    abbrev shown : Node l.Float l.Opaque → ℕ
    shown n = weight l (occurs c "?") (occurs c ", '" + occurs c "')") n

    abbrev shown_all : Nodes l.Float l.Opaque → ℕ
    shown_all n = weight_all l (occurs c "?") (occurs c ", '" + occurs c "')") n

    abbrev arguments : Node l.Float l.Opaque → ℕ
    arguments n = weight l 1 0 n

    abbrev arguments_all : Nodes l.Float l.Opaque → ℕ
    arguments_all n = weight_all l 1 0 n

    abbrev Clean : Node l.Float l.Opaque → List (Arg l.Float l.Opaque) → Type 0
    Clean n args = Tallied l c (shown n) (length args + arguments n) (visit l fields n args)

    same_length : (w k k' : ℕ) (r : Result l) → k ≡ k' → Tallied l c w k r → Tallied l c w k' r
    same_length w k k' r e t = subst (λ x. Tallied l c w x r) e t

    mutual
      unfolding visit weight

      visit-Tallied :
          (n : Node l.Float l.Opaque) (args : List (Arg l.Float l.Opaque)) → Clean n args
      visit-Tallied (binary op a b) args =
          and_then-Tallied l c (shown a) (length args + arguments a) (shown a + shown b)
            (length args + (arguments a + arguments b)) (visit l fields a args) _
            (visit-Tallied a args)
            (λ left args1 e1 k1.
              and_then-Tallied l c (shown b) (length args1 + arguments b) (shown a + shown b)
                (length args + (arguments a + arguments b)) (visit l fields b args1) _
                (visit-Tallied b args1)
                (λ right args2 e2 k2.
                  binary_sql-Tallied l c h fields columns numbers op a b left right args2
                    (shown a + shown b) (length args + (arguments a + arguments b)) (omega arith)
                    (omega arith)))
      visit-Tallied (unary op a) args =
          and_then-Tallied l c (shown a) (length args + arguments a) (shown a)
            (length args + arguments a) (visit l fields a args) _ (visit-Tallied a args)
            (λ sql args1 e k.
              unary_sql-Tallied l c h fields columns numbers op sql args1 (shown a)
                (length args + arguments a) e k)
      visit-Tallied (identifier name) args =
          same_length 0 (length args) (length args + 0)
            (column_of l fields (lookup name fields) args) (omega arith)
            (column_of-Tallied l c h fields columns numbers name args)
      visit-Tallied (string_node s) args =
          literal-Tallied l c h fields columns numbers (text (l.to_lower s)) args
      visit-Tallied (integer_node i) args =
          literal-Tallied l c h fields columns numbers (integer i) args
      visit-Tallied (float_node f) args =
          literal-Tallied l c h fields columns numbers (float f) args
      visit-Tallied (bool_node b) args =
          same_length 0 (length args) (length args + 0) (visit_bool l b args) (omega arith)
            (visit_bool-Tallied l c h fields columns numbers b args)
      visit-Tallied (array_node nodes) args =
          and_then-Tallied l c (shown_all nodes) (length args + arguments_all nodes)
            (shown_all nodes) (length args + arguments_all nodes) (visit_all l fields nodes args) _
            (visit_all-Tallied nodes args)
            (λ parts args1 e k. (omega (arith, occurs-concat c ("(" ∷ parts ∷ ")" ∷ [])), k))
      visit-Tallied (constant v) args = visit_constant-Tallied l c h fields columns numbers v args
      visit-Tallied (call (identifier name) nodes) args =
          call_sql-Tallied l c h fields columns numbers name nodes
            (visit_single l fields nodes args) args (shown_all nodes) (arguments_all nodes)
            (visit_single-Tallied nodes args)
      visit-Tallied (call (binary op a b) nodes) args = tt
      visit-Tallied (call (unary op a) nodes) args = tt
      visit-Tallied (call (string_node t) nodes) args = tt
      visit-Tallied (call (integer_node i) nodes) args = tt
      visit-Tallied (call (float_node f) nodes) args = tt
      visit-Tallied (call (bool_node b) nodes) args = tt
      visit-Tallied (call (array_node a) nodes) args = tt
      visit-Tallied (call (constant v) nodes) args = tt
      visit-Tallied (call (call n a) nodes) args = tt
      visit-Tallied (call (member a b) nodes) args = tt
      visit-Tallied (call nil_node nodes) args = tt
      visit-Tallied (call other_node nodes) args = tt
      visit-Tallied (member base property) args =
          same_length (occurs c ", '" + occurs c "')") (length args) (length args + 0)
            (visit_member l fields base property args) (omega arith)
            (visit_member-Tallied l c h fields columns numbers base property args special)
      visit-Tallied nil_node args = (omega arith, omega arith)
      visit-Tallied other_node args = tt

      visit_all-Tallied :
          (nodes : Nodes l.Float l.Opaque) (args : List (Arg l.Float l.Opaque))
          → Tallied l c
              (shown_all nodes)
              (length args + arguments_all nodes)
              (visit_all l fields nodes args)
      visit_all-Tallied no_nodes args = (refl, omega arith)
      visit_all-Tallied (cons n no_nodes) args =
          let w : shown n + 0 ≡ shown n = omega arith in
          let k : arguments n + 0 ≡ arguments n = omega arith in rw w (rw k (visit-Tallied n args))
      visit_all-Tallied (cons n (cons m rest)) args =
          and_then-Tallied l c (shown n) (length args + arguments n)
            (shown n + shown_all (cons m rest))
            (length args + (arguments n + arguments_all (cons m rest))) (visit l fields n args) _
            (visit-Tallied n args)
            (λ part args1 e1 k1.
              and_then-Tallied l c (shown_all (cons m rest))
                (length args1 + arguments_all (cons m rest)) (shown n + shown_all (cons m rest))
                (length args + (arguments n + arguments_all (cons m rest)))
                (visit_all l fields (cons m rest) args1) _ (visit_all-Tallied (cons m rest) args1)
                (λ parts args2 e2 k2.
                  (omega (arith, occurs-concat c (part ∷ ", " ∷ parts ∷ [])), omega arith)))

      visit_single-Tallied :
          (nodes : Nodes l.Float l.Opaque) (args : List (Arg l.Float l.Opaque)) (r : Result l)
          → visit_single l fields nodes args ≡ some r
          → Tallied l c (shown_all nodes) (length args + arguments_all nodes) r
      visit_single-Tallied no_nodes args r e = absurd (cc)
      visit_single-Tallied (cons n no_nodes) args r e =
          let same : visit l fields n args ≡ r = cc in
          subst
            (λ x.
              Tallied l c (shown_all (cons n no_nodes))
                (length args + arguments_all (cons n no_nodes)) x)
            same
            (let w : shown n + 0 ≡ shown n = omega arith in
              let k : arguments n + 0 ≡ arguments n = omega arith in
              rw w (rw k (visit-Tallied n args)))
      visit_single-Tallied (cons n (cons m rest)) args r e = absurd (cc)

    -- What `Build` makes has the marks and the quotes of the literals and properties in the query.
    pub build-Tallied :
        (n : Node l.Float l.Opaque) (sql : String) (args : List (Arg l.Float l.Opaque))
        → build l fields n ≡ done sql args
        → (occurs c sql ≡ shown n) × (length args ≡ arguments n)
    unfolding build
    build-Tallied n sql args e =
        let e' : visit l fields n [] ≡ done sql args = e in
        let t = visit-Tallied n [] in
        let t' : Tallied l c (shown n) (0 + arguments n) (done sql args) =
          subst (λ r. Tallied l c (shown n) (0 + arguments n) r) e' t in
        (t'.0, omega arith)

module _ (l : Library) (fields : List (String × FieldDef)) where
  -- When the columns' names and the printed numbers have no question mark, the text that Build makes of
  -- a query has as many question marks as the query has arguments: one for each text, number and constant
  -- value and for each item of a list, outside the arguments of now and duration. Booleans, nil and what
  -- stands in a property access have none.
  pub build_marks :
      ColumnsWithout l b'?' fields
      → ((i : ℤ) → occurs b'?' (l.format_int i) ≡ 0)
      → (n : Node l.Float l.Opaque) (sql : String) (args : List (Arg l.Float l.Opaque))
      → build l fields n ≡ done sql args
      → (occurs b'?' sql ≡ length args) × (length args ≡ weight l 1 0 n)
  build_marks columns numbers n sql args e =
      let t = build-Tallied l b'?' Absent-mark fields columns numbers refl n sql args e in
      (t.0 ∙ sym t.1, t.1)

  -- When the columns' names and the printed numbers have no single quote, the text that Build makes of a
  -- query has two single quotes for each access to a property of a JSON field, and no other: neither a
  -- literal nor a property's name brings one in.
  pub build_quotes :
      ColumnsWithout l b'\'' fields
      → ((i : ℤ) → occurs b'\'' (l.format_int i) ≡ 0)
      → (n : Node l.Float l.Opaque) (sql : String) (args : List (Arg l.Float l.Opaque))
      → build l fields n ≡ done sql args
      → occurs b'\'' sql ≡ weight l 0 2 n
  build_quotes columns numbers n sql args e =
      let t = build-Tallied l b'\'' Absent-quote fields columns numbers refl n sql args e in t.0
