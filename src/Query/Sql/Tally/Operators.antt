-- ===== src/Query/Sql/Tally/Operators.antt =====
-- sql_builder.go, `visitBinary` and `visitUnary`: how often a character stands in what they write.
use blazelog.Base.{
  ℕ, ◌+◌, ◌≡◌, refl, subst, String, Bool, Option, none, some, List, [], ◌∷◌, length, if◌then◌else◌,
  arith, Bool-cases, inl, inr,
}
use blazelog.Base.Int.{ℤ}
use blazelog.Base.Dict.{str_eq}
use blazelog.Query.Ast.{Library, Arg, Node}
use blazelog.Query.Fields.{FieldDef}
use blazelog.Query.Sql.{string_method, compared, binary_sql, unary_sql}
use blazelog.Query.Text.{concat, map_operator, is_string_method}
use blazelog.Query.Sql.Tally.{occurs, occurs-concat, Absent, ColumnsWithout, Tallied}

module _ (l : Library) where
  module _ (c : ℕ) (h : Absent c) (fields : List (String × FieldDef))
      (columns : ColumnsWithout l c fields)
      (numbers : (i : ℤ) → occurs c (l.format_int i) ≡ 0) where
    string_method-Tallied :
        (op : String) (node : Node l.Float l.Opaque) (left right : String)
        (args : List (Arg l.Float l.Opaque)) (w k : ℕ)
        → occurs c left + occurs c right ≡ w
        → length args ≡ k
        → Tallied l c w k (string_method l fields op node left right args)
    string_method-Tallied op node left right args w k e n = ground (
      arith,
      occurs-concat c ("position(lower(" ∷ left ∷ "), " ∷ right ∷ ") > 0" ∷ []),
      occurs-concat c ("startsWith(lower(" ∷ left ∷ "), " ∷ right ∷ ")" ∷ []),
      occurs-concat c ("endsWith(lower(" ∷ left ∷ "), " ∷ right ∷ ")" ∷ []),
      occurs-concat c ("match(lower(" ∷ left ∷ "), " ∷ right ∷ ")" ∷ []),
    )

    pick :
        (t : Bool) (rest : Option String) (sql v : String)
        → occurs c v ≡ 0
        → (rest ≡ some sql → occurs c sql ≡ 0)
        → (if t then some v else rest) ≡ some sql
        → occurs c sql ≡ 0
    pick t rest sql v z f e = elim (Bool-cases t) [
      | inl true_t ↦
          let e' = rw true_t at e in let same : v ≡ sql = cc in subst (λ x. occurs c x ≡ 0) same z
      | inr false_t ↦ f (rw false_t at e)
    ]

    none-without : (o : Option String) (sql : String) → o ≡ none → o ≡ some sql → occurs c sql ≡ 0
    none-without o sql e f = absurd (cc)

    operator_without : (op sql : String) → map_operator op ≡ some sql → occurs c sql ≡ 0
    operator_without op sql = pick _ _ sql "=" (omega arith) (
        pick _ _ sql "!=" (omega arith) (
          pick _ _ sql "AND" (omega arith) (
            pick _ _ sql "OR" (omega arith) (
              pick _ _ sql ">=" (omega arith) (
                pick _ _ sql "<=" (omega arith) (
                  pick _ _ sql ">" (omega arith) (
                    pick _ _ sql "<" (omega arith) (
                      pick _ _ sql "-" (omega arith) (
                        pick _ _ sql "+" (omega arith) (
                          pick _ _ sql "*" (omega arith) (
                            pick _ _ sql "/" (omega arith) (
                              pick _ _ sql "%" (omega arith) (
                                pick _ _ sql "NOT" (omega arith)
                                  (none-without none sql refl))))))))))))))

    compared-Tallied :
        (op : String) (node : Node l.Float l.Opaque) (left right : String)
        (args : List (Arg l.Float l.Opaque)) (sql_op : Option String) (w k : ℕ)
        → map_operator op ≡ sql_op
        → occurs c left + occurs c right ≡ w
        → length args ≡ k
        → Tallied l c w k (compared l fields op node left right args sql_op)
    compared-Tallied op node left right args none w k m e n = tt
    compared-Tallied op node left right args (some sql_op) w k m e n =
        let free = operator_without op sql_op m in
        let low = concat ("lower(" ∷ left ∷ ")" ∷ []) in
        ground (
          arith,
          occurs-concat c ("lower(" ∷ left ∷ ")" ∷ []),
          occurs-concat c ("(" ∷ low ∷ " " ∷ sql_op ∷ " " ∷ right ∷ ")" ∷ []),
          occurs-concat c ("(" ∷ left ∷ " " ∷ sql_op ∷ " " ∷ right ∷ ")" ∷ []),
        )

    pub binary_sql-Tallied :
        (op : String) (a b : Node l.Float l.Opaque) (left right : String)
        (args : List (Arg l.Float l.Opaque)) (w k : ℕ)
        → occurs c left + occurs c right ≡ w
        → length args ≡ k
        → Tallied l c w k (binary_sql l fields op a b left right args)
    binary_sql-Tallied op a b left right args w k e n = elim (Bool-cases (is_string_method op)) [
      | inl method ↦ rw method (string_method-Tallied op b left right args w k e n)
      | inr not_method ↦ rw not_method (elim (Bool-cases (str_eq op "in")) [
        | inl is_in ↦ rw is_in (omega (arith, occurs-concat c (left ∷ " IN " ∷ right ∷ [])), n)
        | inr not_in ↦
            rw not_in (compared-Tallied op a left right args (map_operator op) w k refl e n)
      ])
    ]

    pub unary_sql-Tallied :
        (op operand : String) (args : List (Arg l.Float l.Opaque)) (w k : ℕ)
        → occurs c operand ≡ w
        → length args ≡ k
        → Tallied l c w k (unary_sql l fields op operand args)
    unary_sql-Tallied op operand args w k e n = ground (
      arith,
      occurs-concat c ("NOT (" ∷ operand ∷ ")" ∷ []),
      occurs-concat c ("-" ∷ operand ∷ []),
    )
