-- ===== src/Query/Sql/Tally/Literals.antt =====
-- sql_builder.go, `visitConstant` and `visitIdentifier`: how often a character stands in what they write.
use blazelog.Base.{
  ℕ, ◌+◌, ◌≡◌, refl, String, Bool, true, false, List, [], ◌∷◌, ◌++◌, length, arith, length-append,
  Option-cases, inl, inr,
}
use blazelog.Base.Int.{ℤ}
use blazelog.Base.Dict.{lookup}
use blazelog.Query.Ast.{
  Library, Arg, text, integer, float, opaque, Constant, items, texts, value, boolean, unsupported,
}
use blazelog.Query.Fields.{FieldDef}
use blazelog.Query.Sql.{
  done, marks_of, lowered_all, lowered_texts, visit_bool, visit_constant, column_of,
}
use blazelog.Query.Text.{concat, join}
use blazelog.Query.Sql.Tally.{
  occurs, occurs-concat, Absent, each, constant_weight, ColumnsWithout, column_without, Tallied,
}

module _ (l : Library) where
  module _ (c : ℕ) (h : Absent c) (fields : List (String × FieldDef))
      (columns : ColumnsWithout l c fields)
      (numbers : (i : ℤ) → occurs c (l.format_int i) ≡ 0) where
    join-marks_of {ℓ} :
        {A : Type ℓ} → (xs : List A) → occurs c (join (marks_of l xs)) ≡ each l (occurs c "?") 0 xs
    unfolding join
    join-marks_of [] = refl
    join-marks_of (x ∷ []) = omega arith
    join-marks_of (x ∷ y ∷ rest) = omega (
      arith,
      occurs-concat c ("?" ∷ ", " ∷ join (marks_of l (y ∷ rest)) ∷ []),
      join-marks_of (y ∷ rest),
    )

    length-lowered_all :
        (xs : List (Arg l.Float l.Opaque)) → length (lowered_all l xs) ≡ each l 1 0 xs
    length-lowered_all [] = refl
    length-lowered_all (x ∷ xs) = omega (arith, length-lowered_all xs)

    length-lowered_texts : (xs : List String) → length (lowered_texts l xs) ≡ each l 1 0 xs
    length-lowered_texts [] = refl
    length-lowered_texts (x ∷ xs) = omega (arith, length-lowered_texts xs)

    marks-Tallied {ℓ} :
        {A : Type ℓ}
        → (xs : List A) (args more : List (Arg l.Float l.Opaque)) → length more ≡ each l 1 0 xs
        → Tallied l c
            (each l (occurs c "?") 0 xs)
            (length args + each l 1 0 xs)
            (done (concat ("(" ∷ join (marks_of l xs) ∷ ")" ∷ [])) (args ++ more))
    marks-Tallied xs args more e = (
      omega (arith, occurs-concat c ("(" ∷ join (marks_of l xs) ∷ ")" ∷ []), join-marks_of xs),
      omega (arith, length-append args more),
    )

    pub visit_bool-Tallied :
        (b : Bool) (args : List (Arg l.Float l.Opaque))
        → Tallied l c 0 (length args) (visit_bool l b args)
    visit_bool-Tallied true args = (omega arith, refl)
    visit_bool-Tallied false args = (omega arith, refl)

    pub literal-Tallied :
        (a : Arg l.Float l.Opaque) (args : List (Arg l.Float l.Opaque))
        → Tallied l c (occurs c "?") (length args + 1) (done "?" (args ++ a ∷ []))
    literal-Tallied a args = (refl, length-append args (a ∷ []))

    pub visit_constant-Tallied :
        (v : Constant l.Float l.Opaque) (args : List (Arg l.Float l.Opaque))
        → Tallied l c
            (constant_weight l (occurs c "?") 0 v)
            (length args + constant_weight l 1 0 v)
            (visit_constant l v args)
    visit_constant-Tallied (items xs) args =
        marks-Tallied xs args (lowered_all l xs) (length-lowered_all xs)
    visit_constant-Tallied (texts xs) args =
        marks-Tallied xs args (lowered_texts l xs) (length-lowered_texts xs)
    visit_constant-Tallied (value (opaque o)) args = tt
    visit_constant-Tallied (value (text s)) args = literal-Tallied (text (l.to_lower s)) args
    visit_constant-Tallied (value (integer i)) args = literal-Tallied (integer i) args
    visit_constant-Tallied (value (float f)) args = literal-Tallied (float f) args
    visit_constant-Tallied (boolean b) args =
        let same : length args + 0 ≡ length args = omega arith in
        rw same (visit_bool-Tallied b args)
    visit_constant-Tallied unsupported args = tt

    pub column_of-Tallied :
        (name : String) (args : List (Arg l.Float l.Opaque))
        → Tallied l c 0 (length args) (column_of l fields (lookup name fields) args)
    column_of-Tallied name args = elim (Option-cases (lookup name fields)) [
      | inl missing ↦ rw missing tt
      | inr (f, found) ↦ rw found (column_without l c fields name f columns found, refl)
    ]
