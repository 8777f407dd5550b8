-- ===== src/Web/Session/Capacity.antt =====
-- store.go: the sessions are at most `maxSessions`, and the oldest one gives way.
use text.Mathlib.TextEquality.{eq_iff}
use blazelog.Base.{
  ℕ, ◌+◌, ◌≡◌, ◌≤◌, ◌<◌, refl, sym, subst, ◌⊎◌, inl, inr, String, Bool, false, List, [], ◌∷◌,
  length, ltb, ltb→lt, ltb→le, arith, Bool-cases,
}
use blazelog.Base.Dict.{str_eq, insert, remove, keep}
use blazelog.Web.Session.{Session, oldest, evict_one}

abbrev pub In : String → Session → List (String × Session) → Type 0
In k s [] = ⊥
In k s ((j, t) ∷ rest) = ((j ≡ k) × (t ≡ s)) ⊎ In k s rest

-- No key is empty: a key is the text of 32 random bytes.
abbrev pub Named : List (String × Session) → Type 0
Named [] = Unit {0}
Named ((k, s) ∷ rest) = (str_eq k "" ≡ false) × Named rest

-- No session of the list was created before that time.
abbrev pub Since : ℕ → List (String × Session) → Type 0
Since t [] = Unit {0}
Since t ((k, s) ∷ rest) = (t ≤ s.created_at) × Since t rest

Since-mono : (t u : ℕ) (m : List (String × Session)) → t ≤ u → Since u m → Since t m
Since-mono t u [] h s = tt
Since-mono t u ((k, v) ∷ rest) h s = (omega arith, Since-mono t u rest h s.1)

-- The loop ends with the oldest of what it started with and the list.
abbrev Oldest : String → Session → List (String × Session) → String → Type 0
Oldest id first m found =
    (s : Session) × (((id ≡ found) × (first ≡ s)) ⊎ In found s m)
    × (s.created_at ≤ first.created_at)
    × Since s.created_at m

oldest-Oldest :
    (m : List (String × Session)) (id : String) (first : Session)
    → str_eq id "" ≡ false
    → Named m
    → Oldest id first m (oldest m id first.created_at)
oldest-Oldest [] id first e n = (first, inl (refl, refl), omega arith, tt)
oldest-Oldest ((k, s) ∷ rest) id first e n = elim (Bool-cases (ltb s.created_at first.created_at)) [
  | inl before ↦
      let later = oldest-Oldest rest k s n.0 n.1 in
      let step : oldest ((k, s) ∷ rest) id first.created_at ≡ oldest rest k s.created_at =
        rw e (rw before refl) in
      subst (λ x. Oldest id first ((k, s) ∷ rest) x) (sym step)
        (later.0, inr later.1, omega (arith, ltb→lt _ _ before), (later.2, later.3))
  | inr not_before ↦
      let later = oldest-Oldest rest id first e n.1 in
      let step : oldest ((k, s) ∷ rest) id first.created_at ≡ oldest rest id first.created_at =
        rw e (rw not_before refl) in
      subst (λ x. Oldest id first ((k, s) ∷ rest) x) (sym step)
        (
          later.0,
          elim later.1 [ inl same ↦ inl same | inr there ↦ inr (inr there) ],
          later.2,
          (omega (arith, ltb→le _ _ not_before), later.3),
        )
]

In-Named :
    (k : String) (s : Session) (m : List (String × Session))
    → Named m
    → In k s m
    → str_eq k "" ≡ false
In-Named k s [] n i = absurd i
In-Named k s ((j, t) ∷ m) n i = elim i [
  | inl here ↦ subst (λ x. str_eq x "" ≡ false) here.0 n.0
  | inr there ↦ In-Named k s m n.1 there
]

-- Of sessions with names, the eviction removes one that is as old as any.
pub evict_one_lem :
    (p : String × Session) (m : List (String × Session))
    → Named (p ∷ m)
    → (k : String) × (s : Session) × In k s (p ∷ m)
      × (evict_one (p ∷ m) ≡ remove k (p ∷ m))
      × Since s.created_at (p ∷ m)
evict_one_lem (id, first) m n =
    let found = oldest-Oldest m id first n.0 n.1 in
    let k = oldest m id first.created_at in
    let named : str_eq k "" ≡ false = elim found.1 [
      | inl same ↦ subst (λ i. str_eq i "" ≡ false) same.0 n.0
      | inr there ↦ In-Named k found.0 m n.1 there
    ] in
    (k, found.0, found.1, rw (named, evict_one) refl, (found.2, found.3))

pub length-remove : (k : String) (m : List (String × Session)) → length (remove k m) ≤ length m
unfolding remove
length-remove k [] = omega arith
length-remove k ((j, s) ∷ m) = elim (Bool-cases (str_eq j k)) [
  | inl same ↦ rw same (omega (arith, length-remove k m))
  | inr differs ↦ rw differs (omega (arith, length-remove k m))
]

pub remove-shorter :
    (k : String) (s : Session) (m : List (String × Session))
    → In k s m
    → length (remove k m) < length m
unfolding remove
remove-shorter k s [] i = absurd i
remove-shorter k s ((j, t) ∷ m) i = elim (Bool-cases (str_eq j k)) [
  | inl same ↦ rw same (omega (arith, length-remove k m))
  | inr differs ↦ elim i [
    | inl first ↦ let e = (eq_iff j k).1 first.0 in absurd (cc)
    | inr later ↦ rw differs (omega (arith, remove-shorter k s m later))
  ]
]

pub length-insert :
    (k : String) (s : Session) (m : List (String × Session)) → length (insert k s m) ≤ length m + 1
unfolding insert
length-insert k s [] = omega arith
length-insert k s ((j, t) ∷ m) = elim (Bool-cases (str_eq j k)) [
  | inl same ↦ rw same (omega arith)
  | inr differs ↦ rw differs (omega (arith, length-insert k s m))
]

pub length-keep : (p : Session → Bool) (m : List (String × Session)) → length (keep p m) ≤ length m
unfolding keep
length-keep p [] = omega arith
length-keep p ((j, t) ∷ m) = elim (Bool-cases (p t)) [
  | inl kept ↦ rw kept (omega (arith, length-keep p m))
  | inr left ↦ rw left (omega (arith, length-keep p m))
]

pub remove-Named : (k : String) (m : List (String × Session)) → Named m → Named (remove k m)
unfolding remove
remove-Named k [] n = tt
remove-Named k ((j, t) ∷ m) n = elim (Bool-cases (str_eq j k)) [
  | inl same ↦ rw same (remove-Named k m n.1)
  | inr differs ↦ rw differs (n.0, remove-Named k m n.1)
]

pub insert-Named :
    (k : String) (s : Session) (m : List (String × Session))
    → str_eq k "" ≡ false
    → Named m
    → Named (insert k s m)
unfolding insert
insert-Named k s [] e n = (e, tt)
insert-Named k s ((j, t) ∷ m) e n = elim (Bool-cases (str_eq j k)) [
  | inl same ↦ rw same (e, n.1)
  | inr differs ↦ rw differs (n.0, insert-Named k s m e n.1)
]

pub keep-Named : (p : Session → Bool) (m : List (String × Session)) → Named m → Named (keep p m)
unfolding keep
keep-Named p [] n = tt
keep-Named p ((j, t) ∷ m) n = elim (Bool-cases (p t)) [
  | inl kept ↦ rw kept (n.0, keep-Named p m n.1)
  | inr left ↦ rw left (keep-Named p m n.1)
]
