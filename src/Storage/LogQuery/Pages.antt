-- ===== src/Storage/LogQuery/Pages.antt =====
-- clickhouse.go, `Query` and `Count`: one page of the log entries, with the total.
pub mod Total
use blazelog.Base.{
  ℕ, zero, suc, ◌+◌, ◌-◌, ◌≡◌, ◌≤◌, ◌<◌, refl, sym, ap, subst, ◌∙◌, inl, inr, String, Bool, true,
  false, ◌&&◌, Option, none, some, List, [], ◌∷◌, if◌then◌else◌, length, length-take, length-drop,
  ltb, ltb→lt, ltb→le, take, drop, min, max, arith, Bool-cases,
}
use blazelog.Storage.LogQuery.{Argument, LogFilter, build_query}

-- What the driver answers to a query, none for an error. A row that `Scan` has read is a `Row`.
pub record Database (A Row : Type 0) : Type 0 where
  pub rows : String × List (Argument A) → Option (List Row)
  pub total : String × List (Argument A) → Option ℕ

-- `LogQueryResult`
pub record Page (Row : Type 0) : Type 0 where
  pub entries : List Row
  pub total : ℕ
  pub has_more : Bool

module _ {A Row : Type 0} (words : String → List String) (format : ℕ → String)
    (db : Database A Row) where
  unfoldable pub count : LogFilter A → Option ℕ
  unfolding build_query
  count f = db.total (build_query words format f true)

  abbrev pub one_more : LogFilter A → LogFilter A
  one_more f = if ltb 0 f.limit then record f { limit = f.limit + 1 } else f

  abbrev pub page_of : LogFilter A → List Row → Option (Page Row)
  page_of f entries =
      if ltb 0 f.limit && ltb f.limit (length entries)
      then elim (count f) [
        | none ↦ none
        | some n ↦ some (record { entries = take f.limit entries; total = n; has_more = true })
      ]
      else some (record { entries = entries; total = f.offset + length entries; has_more = false })

  -- `Query`
  unfoldable pub query : LogFilter A → Option (Page Row)
  unfolding count
  query f = elim (db.rows (build_query words format (one_more f) false)) [
    | none ↦ none
    | some entries ↦ page_of f entries
  ]
