-- ===== src/Query/Validate/Extract.antt =====
-- dsl.go, `ExtractFieldInfo`, beside the SQL builder's `visitIdentifier` and `visitMember`.
use Prim.Native.String.{◌++◌ as str_append}
use blazelog.Base.{
  ◌≡◌, refl, sym, inl, inr, String, Bool, true, false, not, ◌&&◌, Option, none, some, List, [], ◌∷◌,
  if◌then◌else◌, Bool-cases, Option-cases,
}
use blazelog.Base.Dict.{lookup, str_eq}
use blazelog.Query.Ast.{
  Library, Arg, Node, binary, unary, identifier, string_node, integer_node, float_node, bool_node,
  array_node, constant, call, member, nil_node, other_node,
}
use blazelog.Query.Fields.{FieldDef, json_type}
use blazelog.Query.Sql.{failed, done, visit, property_name, member_of, extracted, no_member_access}
use blazelog.Query.Text.{concat, is_valid_json_property_name}
use blazelog.Query.Validate.{
  Extraction, found, no_access, FieldInfo, extract_field_info, property_or_empty, member_info,
}

and-left : (a b : Bool) → (a && b) ≡ true → a ≡ true
and-left true b e = refl
and-left false b e = absurd (cc)

not-true : (a : Bool) → not a ≡ true → a ≡ false
not-true true e = sym e
not-true false e = refl

-- How a field is written in SQL.
abbrev pub column_sql : FieldInfo → String
column_sql i =
    if str_eq i.json_path ""
    then i.column
    else concat ("JSONExtractString(" ∷ i.column ∷ ", '" ∷ i.json_path ∷ "')" ∷ [])

module _ (l : Library) (fields : List (String × FieldDef)) where
  -- A field, or a property of one.
  abbrev pub IsReference : Node l.Float l.Opaque → Type 0
  IsReference (identifier name) = Unit {0}
  IsReference (member base property) = Unit {0}
  IsReference _ = ⊥

  -- The information is found, and the text is what it says.
  abbrev pub Agrees :
      Extraction → List (Arg l.Float l.Opaque) → String → List (Arg l.Float l.Opaque) → Type 0
  Agrees e args sql args' = (i : FieldInfo) × (e ≡ found i) × (sql ≡ column_sql i) × (args' ≡ args)

  identifier-Agrees :
      (name : String) (args args' : List (Arg l.Float l.Opaque)) (sql : String)
      → visit l fields (identifier name) args ≡ done sql args'
      → Agrees (extract_field_info l fields (identifier name)) args sql args'
  unfolding visit extract_field_info
  identifier-Agrees name args args' sql e = elim (Option-cases (lookup name fields)) [
    | inl missing ↦ let e' = rw missing at e in absurd (cc)
    | inr (f, is_field) ↦
        let e' = rw is_field at e in
        let same : sql ≡ f.column = cc in
        let kept : args' ≡ args = cc in
        rw is_field (
          record { name = name; column = f.column; json_path = ""; type = f.type },
          refl,
          same,
          kept,
        )
  ]

  extracted_agrees :
      (f : FieldDef) (o : Option String) (name property sql : String)
      (args args' : List (Arg l.Float l.Opaque))
      → ((s : String) → o ≡ some s → property ≡ s)
      → extracted l fields f o args ≡ done sql args'
      → (sql ≡ concat ("JSONExtractString(" ∷ f.column ∷ ", '" ∷ property ∷ "')" ∷ []))
        × (str_eq property "" ≡ false)
        × (args' ≡ args)
  extracted_agrees f none name property sql args args' p e = absurd (cc)
  extracted_agrees f (some s) name property sql args args' p e =
      elim (Bool-cases (is_valid_json_property_name s)) [
        | inr invalid ↦ let e' = rw invalid at e in absurd (cc)
        | inl valid ↦
            let e' = rw valid at e in
            let same : concat ("JSONExtractString(" ∷ f.column ∷ ", '" ∷ s ∷ "')" ∷ []) ≡ sql =
              cc in
            let kept : args' ≡ args = cc in
            rw (p s refl)
              (sym same, not-true (str_eq s "") (and-left (not (str_eq s "")) _ valid), kept)
      ]

  member-Agrees :
      (name : String) (property : Node l.Float l.Opaque) (f : FieldDef)
      (args args' : List (Arg l.Float l.Opaque)) (sql : String)
      → member_of l fields (some f) (property_name l fields property) args ≡ done sql args'
      → Agrees
          (member_info l fields name (property_or_empty l fields property) (some f))
          args
          sql
          args'
  member-Agrees name property f args args' sql =
      elim f.type
        as (λ t.
          (elim t [
            | json_type ↦ extracted l fields f (property_name l fields property) args
            | _ ↦ failed no_member_access
          ])
            ≡ done sql args'
          → Agrees
              (elim t [
                | json_type ↦ found (record {
                  name = str_append name (str_append "." (property_or_empty l fields property));
                  column = f.column;
                  json_path = property_or_empty l fields property;
                  type = json_type;
                })
                | _ ↦ no_access
              ])
              args sql args') [
                | json_type ↦ λ e.
                    let x =
                      extracted_agrees f (property_name l fields property) name
                        (property_or_empty l fields property) sql args args' (named property) e in
                    (
                      record {
                        name =
                            str_append name (str_append "." (property_or_empty l fields property));
                        column = f.column;
                        json_path = property_or_empty l fields property;
                        type = json_type;
                      },
                      refl,
                      rw x.1 x.0,
                      x.2,
                    )
                | _ ↦ λ e. absurd (cc)
              ]
    where
      named :
          (n : Node l.Float l.Opaque) (s : String)
          → property_name l fields n ≡ some s
          → property_or_empty l fields n ≡ s
      named (string_node t) s e = cc
      named (identifier t) s e = cc
      named (binary op a b) s e = absurd (cc)
      named (unary op a) s e = absurd (cc)
      named (integer_node i) s e = absurd (cc)
      named (float_node x) s e = absurd (cc)
      named (bool_node b) s e = absurd (cc)
      named (array_node nodes) s e = absurd (cc)
      named (constant v) s e = absurd (cc)
      named (call n a) s e = absurd (cc)
      named (member a b) s e = absurd (cc)
      named nil_node s e = absurd (cc)
      named other_node s e = absurd (cc)

  -- When the SQL builder takes a field or a property of a field, `ExtractFieldInfo` finds its column and
  -- its JSON path, the text that the builder makes is that column, or the extraction of that path from
  -- it, and no argument is added.
  extract-visit :
      (n : Node l.Float l.Opaque) (args args' : List (Arg l.Float l.Opaque)) (sql : String)
      → IsReference n
      → visit l fields n args ≡ done sql args'
      → Agrees (extract_field_info l fields n) args sql args'
  unfolding visit extract_field_info
  extract-visit (identifier name) args args' sql r e = identifier-Agrees name args args' sql e
  extract-visit (member (identifier name) property) args args' sql r e =
      elim (Option-cases (lookup name fields)) [
        | inl missing ↦ let e' = rw missing at e in absurd (cc)
        | inr (f, is_field) ↦
            rw is_field (member-Agrees name property f args args' sql (rw is_field at e))
      ]
  extract-visit (member (binary op a b) property) args args' sql r e = absurd (cc)
  extract-visit (member (unary op a) property) args args' sql r e = absurd (cc)
  extract-visit (member (string_node s) property) args args' sql r e = absurd (cc)
  extract-visit (member (integer_node i) property) args args' sql r e = absurd (cc)
  extract-visit (member (float_node x) property) args args' sql r e = absurd (cc)
  extract-visit (member (bool_node b) property) args args' sql r e = absurd (cc)
  extract-visit (member (array_node nodes) property) args args' sql r e = absurd (cc)
  extract-visit (member (constant v) property) args args' sql r e = absurd (cc)
  extract-visit (member (call n a) property) args args' sql r e = absurd (cc)
  extract-visit (member (member a b) property) args args' sql r e = absurd (cc)
  extract-visit (member nil_node property) args args' sql r e = absurd (cc)
  extract-visit (member other_node property) args args' sql r e = absurd (cc)
  extract-visit (binary op a b) args args' sql r e = absurd r
  extract-visit (unary op a) args args' sql r e = absurd r
  extract-visit (string_node s) args args' sql r e = absurd r
  extract-visit (integer_node i) args args' sql r e = absurd r
  extract-visit (float_node x) args args' sql r e = absurd r
  extract-visit (bool_node b) args args' sql r e = absurd r
  extract-visit (array_node nodes) args args' sql r e = absurd r
  extract-visit (constant v) args args' sql r e = absurd r
  extract-visit (call f a) args args' sql r e = absurd r
  extract-visit nil_node args args' sql r e = absurd r
  extract-visit other_node args args' sql r e = absurd r
