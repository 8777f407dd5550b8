-- ===== src/Storage/LogQuery/Pages/Total.antt =====
-- clickhouse.go, `Query`: the entries of a page, the total and `HasMore`.
use blazelog.Base.{
  ℕ, zero, suc, ◌≡◌, ◌≤◌, refl, ap, String, true, false, some, List, [], ◌∷◌, length, take, drop,
  arith,
}
use blazelog.Storage.LogQuery.{LogFilter, build_query}
use blazelog.Storage.LogQuery.Pages.{Database, one_more}

pub take-take-suc {ℓ} : {A : Type ℓ} → (n : ℕ) (xs : List A) → take n (take (suc n) xs) ≡ take n xs
take-take-suc zero [] = refl
take-take-suc zero (x ∷ xs) = refl
take-take-suc (suc n) [] = refl
take-take-suc (suc n) (x ∷ xs) = ap (λ r. x ∷ r) (take-take-suc n xs)

pub take-suc-short {ℓ} :
    {A : Type ℓ} → (n : ℕ) (xs : List A) → length xs ≤ n → take (suc n) xs ≡ take n xs
take-suc-short zero [] h = refl
take-suc-short zero (x ∷ xs) h = absurd (omega arith)
take-suc-short (suc n) [] h = refl
take-suc-short (suc n) (x ∷ xs) h = ap (λ r. x ∷ r) (take-suc-short n xs (omega arith))

module _ {A Row : Type 0} (words : String → List String) (format : ℕ → String)
    (db : Database A Row) where
  -- The database answers with the rows from the offset on, as many as the limit says, and with the
  -- number of all rows.
  abbrev pub Answers : List Row → LogFilter A → Type 0
  Answers all f =
      (db.rows (build_query words format (one_more words format db f) false)
        ≡ some (take (suc f.limit) (drop f.offset all)))
      × (db.total (build_query words format f true) ≡ some (length all))
