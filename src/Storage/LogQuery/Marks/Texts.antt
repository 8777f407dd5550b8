-- ===== src/Storage/LogQuery/Marks/Texts.antt =====
-- clickhouse.go: the question marks in the texts that `buildQuery` joins.
use Prim.Native.String.{◌++◌ as str_append}
use blazelog.Base.{
  ℕ, ◌+◌, ◌≡◌, refl, ◌∙◌, inl, inr, String, Bool, true, false, List, [], ◌∷◌, ◌++◌, if◌then◌else◌,
  length, ◌==◌, arith, Bool-cases,
}
use blazelog.Base.Dict.{str_eq, lookup}
use blazelog.Query.Text.{concat, join}
use blazelog.Query.Sql.Tally.{occurs, occurs-append, occurs-concat, total}
use blazelog.Access.Projects.{ProjectFilter}
use blazelog.Storage.LogQuery.{
  join_with, placeholders, ids_condition, build_project_filter, texts, clause, order_column,
  or_timestamp, allowed_order_columns,
}

abbrev pub marks : String → ℕ
marks s = occurs b'?' s

pub total-append : (xs ys : List String) → total b'?' (xs ++ ys) ≡ total b'?' xs + total b'?' ys
total-append [] ys = omega arith
total-append (x ∷ xs) ys = omega (arith, total-append xs ys)

pub join_with-marks :
    (separator : String) (parts : List String)
    → marks separator ≡ 0
    → marks (join_with separator parts) ≡ total b'?' parts
unfolding join_with
join_with-marks separator [] z = refl
join_with-marks separator (s ∷ []) z = omega arith
join_with-marks separator (s ∷ t ∷ rest) z = omega (
  arith,
  occurs-append b'?' s (str_append separator (join_with separator (t ∷ rest))),
  occurs-append b'?' separator (join_with separator (t ∷ rest)),
  join_with-marks separator (t ∷ rest) z,
)

pub join-placeholders : (xs : List String) → marks (join (placeholders xs)) ≡ length xs
unfolding join
join-placeholders [] = refl
join-placeholders (x ∷ []) = omega arith
join-placeholders (x ∷ y ∷ rest) = omega (
  arith,
  occurs-concat b'?' ("?" ∷ ", " ∷ join (placeholders (y ∷ rest)) ∷ []),
  join-placeholders (y ∷ rest),
)

pub ids_condition_marks : (ids : List String) → total b'?' (ids_condition ids) ≡ length ids
ids_condition_marks [] = refl
ids_condition_marks (x ∷ xs) = omega (
  arith,
  occurs-concat b'?' ("project_id IN (" ∷ join (placeholders (x ∷ xs)) ∷ ")" ∷ []),
  join-placeholders (x ∷ xs),
)

pub project_filter_marks :
    (f : ProjectFilter) → marks (build_project_filter f).0 ≡ length (build_project_filter f).1
unfolding build_project_filter
project_filter_marks f = elim (Bool-cases (str_eq f.project_id "")) [
  | inr named ↦ rw named refl
  | inl unnamed ↦ rw unnamed (by_ids f.project_ids f.include_unassigned)
]
  where
    more :
        (ids conditions : List String)
        → total b'?' conditions ≡ length ids
        → marks (concat ("(" ∷ join_with " OR " conditions ∷ ")" ∷ [])) ≡ length ids
    more ids conditions e = omega (
      arith,
      occurs-concat b'?' ("(" ∷ join_with " OR " conditions ∷ ")" ∷ []),
      join_with-marks " OR " conditions refl,
    )

    by_ids :
        (ids : List String) (u : Bool)
        → (let conditions = ids_condition ids ++ (if u then "project_id = ''" ∷ [] else []) in
            let p : String × List String =
              if length conditions == 0
              then ("", [])
              else (concat ("(" ∷ join_with " OR " conditions ∷ ")" ∷ []), ids) in
            marks p.0 ≡ length p.1)
    by_ids [] true = omega (arith, occurs-concat b'?' ("(" ∷ "project_id = ''" ∷ ")" ∷ []))
    by_ids [] false = refl
    by_ids (x ∷ xs) true = more (x ∷ xs) (ids_condition (x ∷ xs) ++ "project_id = ''" ∷ []) (
        total-append (ids_condition (x ∷ xs)) ("project_id = ''" ∷ [])
        ∙ omega (arith, ids_condition_marks (x ∷ xs)))
    by_ids (x ∷ xs) false = more (x ∷ xs) (ids_condition (x ∷ xs)) (ids_condition_marks (x ∷ xs))

pub length-texts : (A : Type 0) (xs : List String) → length (texts {A = A} xs) ≡ length xs
length-texts A [] = refl
length-texts A (x ∷ xs) = omega (arith, length-texts A xs)

pub marks-clause :
    (keyword : String) (parts : List String)
    → marks keyword ≡ 0
    → marks (clause keyword parts) ≡ total b'?' parts
marks-clause keyword [] e = refl
marks-clause keyword (c ∷ rest) e = omega (
  arith,
  occurs-append b'?' keyword (join_with " AND " (c ∷ rest)),
  join_with-marks " AND " (c ∷ rest) refl,
)

abbrev Plain : List (String × String) → Type 0
Plain [] = Unit {0}
Plain ((k, column) ∷ rest) = (marks column ≡ 0) × Plain rest

pub marks-or_timestamp :
    (k : String) (m : List (String × String)) → Plain m → marks (or_timestamp (lookup k m)) ≡ 0
unfolding lookup
marks-or_timestamp k [] h = refl
marks-or_timestamp k ((j, column) ∷ rest) h = elim (Bool-cases (str_eq j k)) [
  | inl same ↦ rw same h.0
  | inr differs ↦ rw differs (marks-or_timestamp k rest h.1)
]

pub marks-order_column : (order_by : String) → marks (order_column order_by) ≡ 0
marks-order_column order_by = elim (Bool-cases (str_eq order_by "")) [
  | inl empty ↦ rw empty refl
  | inr given ↦ rw given (marks-or_timestamp order_by allowed_order_columns (omega arith))
]
