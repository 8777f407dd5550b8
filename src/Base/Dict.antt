-- ===== src/Base/Dict.antt =====
-- Go maps with string keys as association lists. The order of the list is the order in which
-- `range` visits the keys, which Go leaves open: no theorem fixes it.
use Prim.Native.String.{String}
use mathlib.Core.Path.{◌≡◌, refl}
use mathlib.Core.Bool.{Bool, true}
use mathlib.Core.List.{List, [], ◌∷◌}
use mathlib.Core.Option.{Option, none, some}
use native.Mathlib.Omega.{arith}
pub use text.Mathlib.Text.{◌==◌ as str_eq}
use text.Mathlib.TextEquality.{eq_iff}
use blazelog.Base.Tests.{if◌then◌else◌}

module _ {ℓ} {V : Type ℓ} where
  unfoldable pub lookup : String → List (String × V) → Option V
  lookup k [] = none
  lookup k ((j, v) ∷ m) = if str_eq j k then some v else lookup k m

  -- `delete(m, k)`
  unfoldable pub remove : String → List (String × V) → List (String × V)
  remove k [] = []
  remove k ((j, w) ∷ m) = if str_eq j k then remove k m else (j, w) ∷ remove k m

  -- `m[k] = v`
  unfoldable pub insert : String → V → List (String × V) → List (String × V)
  insert k v [] = (k, v) ∷ []
  insert k v ((key, old) ∷ rest) =
      if str_eq key k then (k, v) ∷ rest else (key, old) ∷ insert k v rest

  pub lookup-insert :
      (key other : String) (v : V) (m : List (String × V))
      → lookup other (insert key v m) ≡ (if str_eq key other then some v else lookup other m)
  unfolding lookup insert
  lookup-insert key other v [] = refl
  lookup-insert key other v ((j, _) ∷ rest) =
      let ih = lookup-insert key other v rest in
      ground (arith, ih, eq_iff j other, eq_iff j key, eq_iff key other)

  pub lookup-remove :
      (k j : String) (m : List (String × V))
      → lookup j (remove k m) ≡ (if str_eq k j then none else lookup j m)
  unfolding lookup remove
  lookup-remove k j [] = ground arith
  lookup-remove k j ((i, w) ∷ m) =
      ground (arith, eq_iff k j, eq_iff i k, eq_iff i j, lookup-remove k j m)

  -- The entries that a `for key, v := range m { if !p(v) { delete(m, key) } }` leaves.
  unfoldable pub keep : (V → Bool) → List (String × V) → List (String × V)
  keep p [] = []
  keep p ((j, v) ∷ m) = if p v then (j, v) ∷ keep p m else keep p m

-- What is left of the value found at a key.
abbrev pub kept {ℓ} : {V : Type ℓ} → (V → Bool) → Option V → Option V
kept p none = none
kept p (some v) = if p v then some v else none

pub str_eq_refl : (k : String) → str_eq k k ≡ true
str_eq_refl k = (eq_iff k k).1 refl

module _ {V : Type 0} where
  -- No key stands twice, as in a Go map.
  abbrev pub Distinct : List (String × V) → Type 0
  Distinct [] = Unit
  Distinct ((j, v) ∷ m) = (lookup j m ≡ none) × Distinct m

  pub insert-Distinct :
      (k : String) (v : V) (m : List (String × V)) → Distinct m → Distinct (insert k v m)
  unfolding insert lookup
  insert-Distinct k v [] d = (refl, tt)
  insert-Distinct k v ((j, w) ∷ m) d =
      ground (arith, eq_iff j k, eq_iff k j, lookup-insert k j v m, insert-Distinct k v m)

  pub remove-Distinct : (k : String) (m : List (String × V)) → Distinct m → Distinct (remove k m)
  unfolding remove lookup
  remove-Distinct k [] d = tt
  remove-Distinct k ((j, w) ∷ m) d =
      ground (arith, eq_iff j k, eq_iff k j, lookup-remove k j m, remove-Distinct k m)

  pub lookup-keep :
      (p : V → Bool) (k : String) (m : List (String × V))
      → Distinct m
      → lookup k (keep p m) ≡ kept p (lookup k m)
  unfolding keep lookup
  lookup-keep p k [] d = refl
  lookup-keep p k ((j, v) ∷ m) d = ground (arith, eq_iff j k, lookup-keep p k m d.1)

  pub keep-Distinct : (p : V → Bool) (m : List (String × V)) → Distinct m → Distinct (keep p m)
  unfolding keep
  keep-Distinct p [] d = tt
  keep-Distinct p ((j, v) ∷ m) d = ground (arith, keep-Distinct p m d.1, lookup-keep p j m d.1)
