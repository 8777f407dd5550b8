-- ===== src/Query/Sql/Tally/Calls.antt =====
-- sql_builder.go, `visitCall` and `visitMember`: how often a character stands in what they write.
use Prim.Native.Char.{code}
use blazelog.Base.{
  ℕ, ◌+◌, ◌≡◌, refl, String, true, false, Option, none, some, List, [], ◌∷◌, length, ◌==◌, not,
  arith, Bool-cases, Option-cases, inl, inr,
}
use blazelog.Base.Int.{ℤ}
use blazelog.Base.Dict.{str_eq, lookup}
use blazelog.Query.Ast.{
  Library, Arg, Node, binary, unary, identifier, string_node, integer_node, float_node, bool_node,
  array_node, constant, call, member, nil_node, other_node, Nodes,
}
use blazelog.Query.Fields.{FieldDef, json_type}
use blazelog.Query.Sql.{
  Result, failed, done, duration_to_interval, property_name, extracted, member_of, visit_member,
  duration_text, duration_sql, applied, call_sql, no_member_access,
}
use blazelog.Query.Text.{
  concat, property_char, property_chars, is_valid_json_property_name, at_least, truncated,
}
use blazelog.Query.Sql.Tally.{
  occurs, occurs-concat, Absent, call_weight, ColumnsWithout, column_without, Tallied, and-right,
}

module _ (l : Library) where
  module _ (c : ℕ) (h : Absent c) (fields : List (String × FieldDef))
      (columns : ColumnsWithout l c fields)
      (numbers : (i : ℤ) → occurs c (l.format_int i) ≡ 0) where
    applied-Tallied :
        (name : String) (visited : Option (Result l)) (w k : ℕ)
        → occurs c name ≡ 0
        → ((r : Result l) → visited ≡ some r → Tallied l c w k r)
        → Tallied l c w k (applied l fields name visited)
    applied-Tallied name none w k z t = tt
    applied-Tallied name (some (failed e)) w k z t = tt
    applied-Tallied name (some (done arg args)) w k z t =
        let before = t (done arg args) refl in
        (omega (arith, occurs-concat c (name ∷ "(" ∷ arg ∷ ")" ∷ []), before.0), before.1)

    duration_to_interval-without : (d : ℤ) → occurs c (duration_to_interval l d) ≡ 0
    duration_to_interval-without d =
        let interval : (n : ℤ) (u : String)
            → occurs c u ≡ 0
            → occurs c (concat ("INTERVAL " ∷ l.format_int n ∷ u ∷ [])) ≡ 0 =
          λ n u z.
            omega (arith, occurs-concat c ("INTERVAL " ∷ l.format_int n ∷ u ∷ []), numbers n, z) in
        elim (Bool-cases (at_least d 86_400_000_000_000)) [
          | inl days ↦ rw days (interval (truncated d 86_400_000_000_000) " DAY" (omega arith))
          | inr under_day ↦ rw under_day (elim (Bool-cases (at_least d 3_600_000_000_000)) [
            | inl hours ↦ rw hours (interval (truncated d 3_600_000_000_000) " HOUR" (omega arith))
            | inr under_hour ↦ rw under_hour (elim (Bool-cases (at_least d 60_000_000_000)) [
              | inl minutes ↦
                  rw minutes (interval (truncated d 60_000_000_000) " MINUTE" (omega arith))
              | inr under_minute ↦
                  rw under_minute (interval (truncated d 1_000_000_000) " SECOND" (omega arith))
            ])
          ])
        ]

    duration_sql-Tallied :
        (o : Option String) (args : List (Arg l.Float l.Opaque))
        → Tallied l c 0 (length args) (duration_sql l fields o args)
    duration_sql-Tallied none args = tt
    duration_sql-Tallied (some s) args = elim (Option-cases (l.parse_duration s)) [
      | inl invalid ↦ rw (invalid, duration_sql) tt
      | inr (d, parsed) ↦ rw (parsed, duration_sql) (duration_to_interval-without d, refl)
    ]

    property_chars-without :
        (name : String) → property_char c ≡ false → property_chars name ≡ true → occurs c name ≡ 0
    property_chars-without String.[] z e = refl
    property_chars-without (String.◌∷◌ d s) z e = elim (Bool-cases (property_char (code d))) [
      | inr invalid ↦ let clash = rw invalid at e in cc
      | inl valid ↦ elim (Bool-cases (code d == c)) [
        | inl same ↦ let equal : code d ≡ c = ground (arith) in let clash = rw equal at valid in cc
        | inr differs ↦ rw differs (omega (arith, property_chars-without s z (rw valid at e)))
      ]
    ]

    extracted-Tallied :
        (f : FieldDef) (o : Option String) (args : List (Arg l.Float l.Opaque))
        → property_char c ≡ false
        → occurs c f.column ≡ 0
        → Tallied l c (occurs c ", '" + occurs c "')") (length args) (extracted l fields f o args)
    extracted-Tallied f none args z column = tt
    extracted-Tallied f (some name) args z column =
        elim (Bool-cases (is_valid_json_property_name name)) [
          | inr invalid ↦ rw invalid tt
          | inl valid ↦ rw valid (
            omega (
              arith,
              occurs-concat c ("JSONExtractString(" ∷ f.column ∷ ", '" ∷ name ∷ "')" ∷ []),
              property_chars-without name z
                  (and-right (not (str_eq name "")) (property_chars name) valid),
            ),
            refl,
          )
        ]

    member_of-Tallied :
        (f : Option FieldDef) (o : Option String) (args : List (Arg l.Float l.Opaque))
        → property_char c ≡ false
        → ((g : FieldDef) → f ≡ some g → occurs c g.column ≡ 0)
        → Tallied l c (occurs c ", '" + occurs c "')") (length args) (member_of l fields f o args)
    member_of-Tallied none o args z column = tt
    member_of-Tallied (some f) o args z column =
        elim f.type
          as (λ t.
            Tallied l c (occurs c ", '" + occurs c "')") (length args)
              (elim t [ json_type ↦ extracted l fields f o args | _ ↦ failed no_member_access ])) [
                | json_type ↦ extracted-Tallied f o args z (column f refl)
                | _ ↦ tt
              ]

    pub visit_member-Tallied :
        (base property : Node l.Float l.Opaque) (args : List (Arg l.Float l.Opaque))
        → property_char c ≡ false
        → Tallied l c
            (occurs c ", '" + occurs c "')")
            (length args)
            (visit_member l fields base property args)
    visit_member-Tallied (identifier name) property args z =
        member_of-Tallied (lookup name fields) (property_name l fields property) args z
          (λ g found. column_without l c fields name g columns found)
    visit_member-Tallied (binary op a b) property args z = tt
    visit_member-Tallied (unary op a) property args z = tt
    visit_member-Tallied (string_node t) property args z = tt
    visit_member-Tallied (integer_node i) property args z = tt
    visit_member-Tallied (float_node f) property args z = tt
    visit_member-Tallied (bool_node b) property args z = tt
    visit_member-Tallied (array_node nodes) property args z = tt
    visit_member-Tallied (constant v) property args z = tt
    visit_member-Tallied (call n arguments) property args z = tt
    visit_member-Tallied (member a b) property args z = tt
    visit_member-Tallied nil_node property args z = tt
    visit_member-Tallied other_node property args z = tt

    pub call_sql-Tallied :
        (name : String) (arguments : Nodes l.Float l.Opaque) (visited : Option (Result l))
        (args : List (Arg l.Float l.Opaque)) (w k : ℕ)
        → ((r : Result l) → visited ≡ some r → Tallied l c w (length args + k) r)
        → Tallied l c
            (call_weight l w 0 name w)
            (length args + call_weight l k 0 name k)
            (call_sql l fields name arguments visited args)
    call_sql-Tallied name arguments visited args w k t = elim (Bool-cases (str_eq name "now")) [
      | inl now ↦ rw now (omega arith, omega arith)
      | inr not_now ↦ rw not_now (elim (Bool-cases (str_eq name "duration")) [
        | inl duration ↦ rw duration (
            let same : length args + 0 ≡ length args = omega arith in
            rw same (duration_sql-Tallied (duration_text l fields arguments) args))
        | inr not_duration ↦ rw not_duration (elim (Bool-cases (str_eq name "lower")) [
          | inl is_lower ↦
              rw is_lower (applied-Tallied "lower" visited w (length args + k) (omega arith) t)
          | inr not_lower ↦ rw not_lower (elim (Bool-cases (str_eq name "upper")) [
            | inl is_upper ↦
                rw is_upper (applied-Tallied "upper" visited w (length args + k) (omega arith) t)
            | inr not_upper ↦ rw not_upper (elim (Bool-cases (str_eq name "len")) [
              | inl is_len ↦
                  rw is_len (applied-Tallied "length" visited w (length args + k) (omega arith) t)
              | inr not_len ↦ rw not_len tt
            ])
          ])
        ])
      ])
    ]
