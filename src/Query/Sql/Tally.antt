-- ===== src/Query/Sql/Tally.antt =====
-- sql_builder.go: how often a character stands in the text that `Build` makes.
mod Operators
mod Literals
mod Calls
pub mod Visit
use Prim.Native.Char.{Char, code}
use Prim.Native.String.{◌++◌ as str_append}
use Prim.Native.String.append.{nil as append_nil, cons as append_cons}
use blazelog.Base.{
  ℕ, zero, suc, ◌+◌, ◌*◌, ◌-◌, ◌≡◌, refl, ap, sym, subst, ◌∙◌, String, Bool, true, false, Option,
  none, some, List, [], ◌∷◌, ◌++◌, length, ltb, leb, ◌==◌, ◌&&◌, ◌||◌, not, if◌then◌else◌, arith,
  length-append, Bool-cases, Option-cases, inl, inr, ◌⊎◌,
}
use blazelog.Base.Int.{ℤ, pos, negsuc}
use blazelog.Base.Dict.{str_eq, lookup}
use blazelog.Query.Ast.{
  Library, Arg, text, integer, float, opaque, Constant, items, texts, value, boolean, unsupported,
  Node, binary, unary, identifier, string_node, integer_node, float_node, bool_node, array_node,
  constant, call, member, nil_node, other_node, Nodes, no_nodes, cons,
}
use blazelog.Query.Fields.{
  FieldDef, FieldType, string_type, int_type, float_type, time_type, json_type,
}
use blazelog.Query.Sql.{
  Result, failed, done, and_then, duration_to_interval, marks_of, lowered_all, lowered_texts,
  visit_bool, visit_constant, is_string_field, is_dangerous, string_method, compared, binary_sql,
  unary_sql, column_of, property_name, extracted, member_of, visit_member, duration_text,
  duration_sql, applied, call_sql, visit, visit_all, visit_single, build, no_member_access,
}
use blazelog.Query.Text.{
  concat, join, map_operator, property_char, property_chars, is_valid_json_property_name,
  is_string_method, at_least, truncated,
}

-- How often the character with that number stands in the text.
abbrev pub occurs : ℕ → String → ℕ
occurs c String.[] = 0
occurs c (String.◌∷◌ d s) = (if code d == c then 1 else 0) + occurs c s

pub occurs-append : (c : ℕ) (s t : String) → occurs c (str_append s t) ≡ occurs c s + occurs c t
occurs-append c String.[] t = rw (append_nil t) (omega arith)
occurs-append c (String.◌∷◌ d s) t = rw (append_cons d s t) (omega (arith, occurs-append c s t))

abbrev pub total : ℕ → List String → ℕ
total c [] = 0
total c (s ∷ rest) = occurs c s + total c rest

pub occurs-concat : (c : ℕ) (parts : List String) → occurs c (concat parts) ≡ total c parts
unfolding concat
occurs-concat c [] = refl
occurs-concat c (s ∷ rest) =
    occurs-append c s (concat rest) ∙ ap (λ n. occurs c s + n) (occurs-concat c rest)

-- The character stands in none of the texts that the builder writes itself, but for the mark of an
-- argument and the quotes round a property name.
abbrev pub Absent : ℕ → Type 0
Absent c =
    (occurs c "(" ≡ 0)
    × (occurs c ")" ≡ 0)
    × (occurs c " " ≡ 0)
    × (occurs c ", " ≡ 0)
    × (occurs c " IN " ≡ 0)
    × (occurs c "lower(" ≡ 0)
    × (occurs c "position(lower(" ≡ 0)
    × (occurs c "), " ≡ 0)
    × (occurs c ") > 0" ≡ 0)
    × (occurs c "startsWith(lower(" ≡ 0)
    × (occurs c "endsWith(lower(" ≡ 0)
    × (occurs c "match(lower(" ≡ 0)
    × (occurs c "NOT (" ≡ 0)
    × (occurs c "-" ≡ 0)
    × (occurs c "JSONExtractString(" ≡ 0)
    × (occurs c "lower" ≡ 0)
    × (occurs c "upper" ≡ 0)
    × (occurs c "length" ≡ 0)
    × (occurs c "now()" ≡ 0)
    × (occurs c "NULL" ≡ 0)
    × (occurs c "0" ≡ 0)
    × (occurs c "1" ≡ 0)
    × (occurs c "INTERVAL " ≡ 0)
    × (occurs c " DAY" ≡ 0)
    × (occurs c " HOUR" ≡ 0)
    × (occurs c " MINUTE" ≡ 0)
    × (occurs c " SECOND" ≡ 0)
    × (occurs c "=" ≡ 0)
    × (occurs c "!=" ≡ 0)
    × (occurs c "AND" ≡ 0)
    × (occurs c "OR" ≡ 0)
    × (occurs c ">=" ≡ 0)
    × (occurs c "<=" ≡ 0)
    × (occurs c ">" ≡ 0)
    × (occurs c "<" ≡ 0)
    × (occurs c "+" ≡ 0)
    × (occurs c "*" ≡ 0)
    × (occurs c "/" ≡ 0)
    × (occurs c "%" ≡ 0)
    × (occurs c "NOT" ≡ 0)

pub Absent-mark : Absent b'?'
Absent-mark = omega arith

pub and-right : (a b : Bool) → (a && b) ≡ true → b ≡ true
and-right true b e = e
and-right false b e = absurd (cc)

module _ (l : Library) where
  -- The weight of a query, with `q` for each literal and `s` for each property of a JSON field.
  module _ (q s : ℕ) where
    abbrev pub each {ℓ} : {A : Type ℓ} → List A → ℕ
    each [] = 0
    each (_ ∷ rest) = q + each rest

    abbrev pub constant_weight : Constant l.Float l.Opaque → ℕ
    constant_weight (items xs) = each xs
    constant_weight (texts xs) = each xs
    constant_weight (value a) = q
    constant_weight (boolean b) = 0
    constant_weight unsupported = 0

    -- `now` and `duration` do not show their arguments.
    abbrev pub call_weight : String → ℕ → ℕ
    call_weight name n = if str_eq name "now" then 0 else if str_eq name "duration" then 0 else n

    unfoldable mutual
      pub weight : Node l.Float l.Opaque → ℕ
      weight (binary op a b) = weight a + weight b
      weight (unary op a) = weight a
      weight (identifier name) = 0
      weight (string_node t) = q
      weight (integer_node i) = q
      weight (float_node f) = q
      weight (bool_node b) = 0
      weight (array_node nodes) = weight_all nodes
      weight (constant c) = constant_weight c
      weight (call (identifier name) arguments) = call_weight name (weight_all arguments)
      weight (call _ arguments) = 0
      weight (member base property) = s
      weight nil_node = 0
      weight other_node = 0

      pub weight_all : Nodes l.Float l.Opaque → ℕ
      weight_all no_nodes = 0
      weight_all (cons n rest) = weight n + weight_all rest

  abbrev pub ColumnsWithout : ℕ → List (String × FieldDef) → Type 0
  ColumnsWithout c [] = Unit {0}
  ColumnsWithout c ((name, f) ∷ rest) = (occurs c f.column ≡ 0) × ColumnsWithout c rest

  pub column_without :
      (c : ℕ) (fields : List (String × FieldDef)) (name : String) (f : FieldDef)
      → ColumnsWithout c fields
      → lookup name fields ≡ some f
      → occurs c f.column ≡ 0
  unfolding lookup
  column_without c [] name f w e = absurd (cc)
  column_without c ((k, g) ∷ rest) name f w e = elim (Bool-cases (str_eq k name)) [
    | inl same ↦
        let e' = rw same at e in let e2 : g ≡ f = cc in subst (λ x. occurs c x.column ≡ 0) e2 w.0
    | inr differs ↦ column_without c rest name f w.1 (rw differs at e)
  ]

  module _ (c : ℕ) where
    -- The text has `w` of the characters, and there are `k` arguments.
    abbrev pub Tallied : ℕ → ℕ → Result l → Type 0
    Tallied w k (failed e) = Unit {0}
    Tallied w k (done sql args) = (occurs c sql ≡ w) × (length args ≡ k)

    pub and_then-Tallied :
        (w k w' k' : ℕ) (r : Result l) (next : String → List (Arg l.Float l.Opaque) → Result l)
        → Tallied w k r
        → ((sql : String) (args : List (Arg l.Float l.Opaque))
            → occurs c sql ≡ w
            → length args ≡ k
            → Tallied w' k' (next sql args))
        → Tallied w' k' (and_then l r next)
    and_then-Tallied w k w' k' (failed e) next t f = tt
    and_then-Tallied w k w' k' (done sql args) next t f = f sql args t.0 t.1
