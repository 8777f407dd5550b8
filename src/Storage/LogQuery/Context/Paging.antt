-- ===== src/Storage/LogQuery/Context/Paging.antt =====
-- clickhouse.go, `GetContext`: the pages before an entry, one after the other.
use blazelog.Base.{
  ℕ, zero, suc, ◌+◌, ◌≡◌, ◌<◌, refl, ap, subst, ◌∙◌, inl, inr, Bool, true, false, some, List, [],
  ◌∷◌, length, length-take, take, drop, ltb, lt→ltb, ltb→lt, ltb→le, le→ltb, if◌then◌else◌, arith,
  Bool-cases,
}
use blazelog.Query.Sql.Tally.{occurs}
use blazelog.Storage.LogQuery.Pages.Total.{take-take-suc, take-suc-short}
use blazelog.Storage.LogQuery.Context.{
  get_context, fill_after, put_after, request_after, clamped, minimum_50, empty_result, Row,
  ContextFilter, ContextResult, Request, Source, trimmed, last_of, reversed, start_of, cursor_of,
  request_before, fill_before, format_cursor,
}
use blazelog.Storage.LogQuery.Context.Cursor.{start_of-cursor}

trimmed_lem : (n : ℕ) (xs : List Row) → trimmed n (take (suc n) xs) ≡ (take n xs, ltb n (length xs))
trimmed_lem n xs =
    let size = length-take (suc n) xs in
    elim (Bool-cases (ltb n (length xs))) [
      | inl more ↦
          let longer : ltb n (length (take (suc n) xs)) ≡ true =
            lt→ltb _ _ (omega (arith, size, ltb→lt _ _ more)) in
          rw longer (rw more (rw (take-take-suc n xs) refl))
      | inr no_more ↦
          let shorter : ltb n (length (take (suc n) xs)) ≡ false =
            le→ltb _ _ (omega (arith, size, ltb→le _ _ no_more)) in
          rw shorter (rw no_more (rw (take-suc-short n xs (ltb→le _ _ no_more)) refl))
    ]

abbrev pub All : (Row → Type 0) → List Row → Type 0
All P [] = Unit {0}
All P (r ∷ rest) = P r × All P rest

last_of-All :
    (P : Row → Type 0) (n : ℕ) (xs : List Row) (r : Row)
    → All P xs
    → last_of (take n xs) ≡ some r
    → P r
last_of-All P zero xs r a e = absurd (cc)
last_of-All P (suc n) [] r a e = absurd (cc)
last_of-All P (suc zero) (x ∷ xs) r a e = let same : x ≡ r = cc in subst P same a.0
last_of-All P (suc (suc n)) (x ∷ []) r a e = let same : x ≡ r = cc in subst P same a.0
last_of-All P (suc (suc n)) (x ∷ y ∷ xs) r a e = last_of-All P (suc n) (y ∷ xs) r a.1 e

-- `precedes r s` says that in the order of time and id the row `s` comes before `r`.
module _ (precedes : Row → Row → Bool) where
  -- Latest first.
  abbrev pub Ordered : List Row → Type 0
  Ordered [] = Unit {0}
  Ordered (r ∷ rest) =
      (precedes r r ≡ false)
      × All (λ s. (precedes r s ≡ true) × (precedes s r ≡ false)) rest
      × Ordered rest

  abbrev pub before_row : Row → List Row → List Row
  before_row r [] = []
  before_row r (s ∷ rest) =
      let others = before_row r rest in if precedes r s then s ∷ others else others

  before_row_same :
      (r : Row) (xs : List Row)
      → All (λ s. (precedes r s ≡ true) × (precedes s r ≡ false)) xs
      → before_row r xs ≡ xs
  before_row_same r [] a = refl
  before_row_same r (s ∷ rest) a = rw a.0.0 (ap (λ t. s ∷ t) (before_row_same r rest a.1))

  before_row-drop :
      (n : ℕ) (xs : List Row) (r : Row)
      → Ordered xs
      → last_of (take (suc n) xs) ≡ some r
      → before_row r xs ≡ drop (suc n) xs
  before_row-drop n [] r o e = absurd (cc)
  before_row-drop zero (x ∷ xs) r o e =
      let same : x ≡ r = cc in
      subst (λ t. before_row t (x ∷ xs) ≡ xs) same (rw o.0 (before_row_same x xs o.1))
  before_row-drop (suc n) (x ∷ []) r o e =
      let same : x ≡ r = cc in subst (λ t. before_row t (x ∷ []) ≡ []) same (rw o.0 refl)
  before_row-drop (suc n) (x ∷ y ∷ ys) r o e =
      let later =
        last_of-All (λ s. (precedes x s ≡ true) × (precedes s x ≡ false)) (suc n) (y ∷ ys) r o.1
          e in
      rw later.1 (before_row-drop n (y ∷ ys) r o.2 e)

last_of-take-drop :
    (k n : ℕ) (xs : List Row) (r : Row)
    → last_of (take (suc n) (drop (suc k) xs)) ≡ some r
    → last_of (take (suc (suc k + n)) xs) ≡ some r
last_of-take-drop k n [] r e = absurd (cc)
last_of-take-drop zero n (x ∷ []) r e = absurd (cc)
last_of-take-drop zero n (x ∷ y ∷ ys) r e = let one : 1 + n ≡ suc n = omega arith in rw one e
last_of-take-drop (suc k) n (x ∷ []) r e = absurd (cc)
last_of-take-drop (suc k) n (x ∷ y ∷ ys) r e =
    let one : suc (suc k) + n ≡ suc (suc k + n) = omega arith in
    rw one (last_of-take-drop k n (y ∷ ys) r e)

module _ (src : Source) (precedes : Row → Row → Bool) where
  -- The query with this row as its cursor.
  abbrev pub asked : ContextFilter → Row → Request
  asked f r = record (request_before src f) { timestamp = r.timestamp; id = r.id }

  -- The database answers with the rows that come before the cursor in the order of time and id, latest
  -- first, as many as the limit says.
  abbrev pub Answers : ContextFilter → List Row → Type 0
  Answers f all =
      (r : Row)
      → src.rows_before (asked f r) ≡ some (take (f.before + 1) (before_row precedes r all))

  -- The page behind the row at this place.
  abbrev pub page_at : ℕ → ContextFilter → List Row → ContextResult → ContextResult
  page_at k f all result =
      let rest = drop (suc k) all in
      record result {
        before = reversed (take f.before rest);
        has_more_before = ltb f.before (length rest);
        before_cursor = cursor_of src (last_of (take f.before rest));
      }

  fill_before-page :
      (k : ℕ) (f : ContextFilter) (all : List Row) (c : Row) (result : ContextResult)
      → 0 < f.before
      → start_of src f f.before_cursor ≡ (c.timestamp, c.id)
      → Ordered precedes all
      → last_of (take (suc k) all) ≡ some c
      → Answers f all
      → fill_before src f result ≡ some (page_at k f all result)
  fill_before-page k f all c result positive start o e answers =
      let rest = before_row-drop precedes k all c o e in
      let one : f.before + 1 ≡ suc f.before = omega arith in
      let answer : src.rows_before (request_before src f)
          ≡ some (take (suc f.before) (drop (suc k) all)) =
        rw start (answers c ∙ rw one (rw rest refl)) in
      let page = trimmed_lem f.before (drop (suc k) all) in
      rw (lt→ltb 0 f.before positive) (rw answer (rw page refl))

  -- The request finds the target, and the database answers what the request needs: these rows after the
  -- target, and the rows before a cursor of these rows.
  abbrev pub Served : ContextFilter → Row → List Row → List Row → Type 0
  Served f target later all =
      (src.by_id f.target_id ≡ some (some target))
      × (src.rows_after (request_after src (clamped f)) ≡ some later)
      × Answers (clamped f) all

  -- The cursor of the request, or the target where it has none, is the row at this place.
  abbrev pub Starts : ℕ → ContextFilter → Row → List Row → Type 0
  Starts k f c all =
      (start_of src f f.before_cursor ≡ (c.timestamp, c.id)) × (last_of (take (suc k) all) ≡ some c)

  -- `GetContext` succeeds with the rows behind this place, earliest first.
  abbrev pub Gives : ℕ → ContextFilter → Row → List Row → Type 0
  Gives k f target all =
      let rest = drop (suc k) all in
      (result : ContextResult) × (get_context src f ≡ some (some result))
      × (result.target ≡ target)
      × (result.before ≡ reversed (take (minimum_50 f.before) rest))
      × (result.has_more_before ≡ ltb (minimum_50 f.before) (length rest))
      × (result.before_cursor ≡ cursor_of src (last_of (take (minimum_50 f.before) rest)))

  fill_after-answered :
      (f : ContextFilter) (result : ContextResult) (later : List Row)
      → src.rows_after (request_after src f) ≡ some later
      → (result' : ContextResult) × (fill_after src f (some result) ≡ some result')
        × (result'.target ≡ result.target)
        × (result'.before ≡ result.before)
        × (result'.has_more_before ≡ result.has_more_before)
        × (result'.before_cursor ≡ result.before_cursor)
  fill_after-answered f result later answer = elim (Bool-cases (ltb 0 f.after)) [
    | inl asks ↦ (put_after src f result later, rw asks (rw answer refl), refl, refl, refl, refl)
    | inr none_asked ↦ (result, rw none_asked refl, refl, refl, refl, refl)
  ]

  -- The first page, and every other one, by the place where it starts.
  context_page :
      (k : ℕ) (f : ContextFilter) (all later : List Row) (c target : Row)
      → 0 < minimum_50 f.before
      → Ordered precedes all
      → Served f target later all
      → Starts k f c all
      → Gives k f target all
  unfolding get_context
  context_page k f all later c target positive o served starts =
      let before =
        fill_before-page k (clamped f) all c (empty_result target) positive starts.0 o starts.1
          served.2 in
      let (result, filled, target_kept, before_kept, more_kept, cursor_kept) =
        fill_after-answered (clamped f) (page_at k (clamped f) all (empty_result target)) later
          served.1 in
      (
        result,
        rw (served.0, get_context) (rw (before, get_context) (rw (filled, get_context) refl)),
        target_kept,
        before_kept,
        more_kept,
        cursor_kept,
      )

  -- The request asks for entries before the target, its cursor is the row at some place of the rows, or
  -- it has none and the target is that row; the target is found, and the database answers in the order
  -- of time and id, latest first. There is a row behind that place, and the earliest row of the page has
  -- a time that is parsed as it was printed and an id without a colon. Then GetContext succeeds with the
  -- rows behind the place, earliest first, as many as asked for but at most 50, there are more exactly
  -- when rows are left, and the cursor is that of the earliest row of the page; and the request with
  -- that cursor gives in the same way the rows that follow this page, and misses and repeats none.
  pub context_pages :
      (k n : ℕ) (f : ContextFilter) (all later : List Row) (c r target : Row)
      → minimum_50 f.before ≡ suc n
      → Ordered precedes all
      → Served f target later all
      → Starts k f c all
      → last_of (take (suc n) (drop (suc k) all)) ≡ some r
      → src.parse_time (src.format_time r.timestamp) ≡ some r.timestamp
      → occurs b':' r.id ≡ 0
      → Gives k f target all
        × Gives
            (suc k + n)
            (record f { before_cursor = format_cursor src r.timestamp r.id })
            target
            all
  context_pages k n f all later c r target size o served starts last parsed plain =
      let positive : 0 < minimum_50 f.before = omega (arith, size) in
      let next : ContextFilter = record f { before_cursor = format_cursor src r.timestamp r.id } in
      let place = last_of-take-drop k n all r last in
      let at = start_of-cursor src next r.timestamp r.id parsed plain in
      (
        context_page k f all later c target positive o served starts,
        context_page (suc k + n) next all later r target positive o served (at, place),
      )
