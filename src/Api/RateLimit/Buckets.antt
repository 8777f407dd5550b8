-- ===== src/Api/RateLimit/Buckets.antt =====
-- ratelimit.go, `Allow` and `cleanup`: every key has a bucket of its own.
use blazelog.Base.{
  ℕ, ◌+◌, ◌-◌, ◌≡◌, ◌≤◌, ◌<◌, refl, sym, ap, subst, inl, inr, String, Bool, not, Option, none, some,
  List, [], ◌∷◌, ltb, ltb→lt, if◌then◌else◌, arith, Bool-cases,
}
use text.Mathlib.TextEquality.{eq_iff}
use blazelog.Base.Dict.{
  str_eq, lookup, insert, keep, kept, Distinct, insert-Distinct, lookup-insert, lookup-keep,
  keep-Distinct,
}
use blazelog.Api.RateLimit.{Rate, Entry, limiter_of, allow, cleanup}

-- A request that counts for a key, or a round of the cleanup.
pub data Event : Type 0 where
  request : String → Event
  clean : Event

module _ {Limiter : Type 0} (rate : Rate Limiter) where
  abbrev pub Map : Type 0
  Map = List (String × Entry Limiter)

  abbrev pub next : ℕ → ℕ → Event → Map → Map
  next window now (request key) m = (allow rate now key m).0
  next window now clean m = cleanup rate window now m

  -- The answer to the request, when it counts for this key.
  abbrev pub answer : String → ℕ → Event → Map → List Bool → List Bool
  answer k now (request key) m rest = if str_eq key k then (allow rate now key m).1 ∷ rest else rest
  answer k now clean m rest = rest

  -- What the requests of this key are answered.
  unfoldable pub answers : String → ℕ → List (ℕ × Event) → Map → List Bool
  answers k window [] m = []
  answers k window ((now, e) ∷ rest) m =
      answer k now e m (answers k window rest (next window now e m))

  -- One limiter for this key alone, which no cleanup ever removes.
  abbrev pub alone_next : String → ℕ → Event → Limiter → Limiter
  alone_next k now (request key) l = if str_eq key k then (rate.allow l now).0 else l
  alone_next k now clean l = l

  abbrev pub alone_answer : String → ℕ → Event → Limiter → List Bool → List Bool
  alone_answer k now (request key) l rest =
      if str_eq key k then (rate.allow l now).1 ∷ rest else rest
  alone_answer k now clean l rest = rest

  unfoldable pub alone : String → List (ℕ × Event) → Limiter → List Bool
  alone k [] l = []
  alone k ((now, e) ∷ rest) l = alone_answer k now e l (alone k rest (alone_next k now e l))

  -- The clock never goes back.
  abbrev pub Later : ℕ → List (ℕ × Event) → Type 0
  Later t [] = Unit
  Later t ((now, e) ∷ rest) = (t ≤ now) × Later now rest

  -- The limiter comes of requests in the order of time, the last of them at this time.
  pub data Used : Limiter → ℕ → Type 0 where
    unused : (t : ℕ) → Used rate.new_limiter t
    used : (l : Limiter) (t now : ℕ) → Used l t → t ≤ now → Used (rate.allow l now).0 now

  -- A limiter that was not asked for longer than the window is like a new one.
  abbrev pub Refills : ℕ → Type 0
  Refills window =
      (l : Limiter) (a b : ℕ)
      → Used l a
      → a + window < b
      → rate.allow l b ≡ rate.allow rate.new_limiter b

  module _ (window : ℕ) where
    -- From this time on the entry answers as this limiter does.
    abbrev Agrees : ℕ → Option (Entry Limiter) → Limiter → Type 0
    Agrees now none l = (b : ℕ) → now ≤ b → rate.allow l b ≡ rate.allow rate.new_limiter b
    Agrees now (some e) l =
        (e.limiter ≡ l)
        × ((b : ℕ) → e.last_access + window < b → rate.allow l b ≡ rate.allow rate.new_limiter b)

    Agrees-allow :
        (t now : ℕ) (o : Option (Entry Limiter)) (l : Limiter)
        → t ≤ now
        → Agrees t o l
        → rate.allow (limiter_of rate o) now ≡ rate.allow l now
    Agrees-allow t now none l le a = sym (a now le)
    Agrees-allow t now (some e) l le a = ap (λ x. rate.allow x now) a.0

    Agrees-later :
        (t now : ℕ) (o : Option (Entry Limiter)) (l : Limiter)
        → t ≤ now
        → Agrees t o l
        → Agrees now o l
    Agrees-later t now none l le a = λ b h. a b (omega arith)
    Agrees-later t now (some e) l le a = a

    Agrees-cleanup :
        (t now : ℕ) (o : Option (Entry Limiter)) (l : Limiter)
        → t ≤ now
        → Agrees t o l
        → Agrees now (kept (λ e. not (ltb e.last_access (now - window))) o) l
    Agrees-cleanup t now none l le a = Agrees-later t now none l le a
    Agrees-cleanup t now (some e) l le a = elim (Bool-cases (ltb e.last_access (now - window))) [
      | inl stale ↦ let old = ltb→lt _ _ stale in rw stale (λ b h. a.1 b (omega arith))
      | inr recent ↦ rw recent a
    ]

    Agrees-answers-alone :
        (k : String) (t : ℕ) (events : List (ℕ × Event)) (m : Map) (l : Limiter)
        → Refills window
        → Later t events
        → Distinct m
        → Agrees t (lookup k m) l
        → (s : ℕ) → s ≤ t
        → Used l s
        → answers k window events m ≡ alone k events l
    unfolding answers alone allow cleanup
    Agrees-answers-alone k t [] m l full later d a s le u = refl
    Agrees-answers-alone k t ((now, clean) ∷ rest) m l full later d a s le u =
        let fresh : Entry Limiter → Bool = λ e. not (ltb e.last_access (now - window)) in
        Agrees-answers-alone k now rest (keep fresh m) l full later.1 (keep-Distinct fresh m d)
          (rw (lookup-keep fresh k m d) (Agrees-cleanup t now (lookup k m) l later.0 a)) s
          (omega (arith, later.0)) u
    Agrees-answers-alone k t ((now, request key) ∷ rest) m l full later d a s le u =
        let given = rate.allow (limiter_of rate (lookup key m)) now in
        let entry : Entry Limiter = record { limiter = given.0; last_access = now } in
        let d1 = insert-Distinct key entry m d in
        let found = lookup-insert key k entry m in
        elim (Bool-cases (str_eq key k)) [
          | inl same ↦
              let after = used l s now u (omega (arith, later.0)) in
              let o = subst (λ x. Agrees t (lookup x m) l) (sym ((eq_iff key k).0 same)) a in
              let equal : given ≡ rate.allow l now =
                Agrees-allow t now (lookup key m) l later.0 o in
              let ih =
                Agrees-answers-alone k now rest (insert key entry m) (rate.allow l now).0 full
                  later.1 d1
                  (rw found
                    (rw same (ap (λ x. x.0) equal, λ b h. full (rate.allow l now).0 now b after h)))
                  now (omega arith) after in
              rw same (rw ih (ap (λ x. x.1 ∷ alone k rest (rate.allow l now).0) equal))
          | inr other ↦
              let ih =
                Agrees-answers-alone k now rest (insert key entry m) l full later.1 d1
                  (rw found (rw other (Agrees-later t now (lookup k m) l later.0 a))) s
                  (omega (arith, later.0)) u in
              rw other ih
        ]

  -- When a limiter that was not asked for longer than the window is like a new one, and the clock never
  -- goes back, the requests of a key are answered as by one limiter of that key alone: the requests of
  -- the other keys and the rounds of the cleanup between them make no difference.
  pub answers-alone :
      (k : String) (window t : ℕ) (events : List (ℕ × Event))
      → Refills window
      → Later t events
      → answers k window events [] ≡ alone k events rate.new_limiter
  unfolding lookup
  answers-alone k window t events full later =
      Agrees-answers-alone window k t events [] rate.new_limiter full later tt (λ b h. refl) t
        (omega arith) (unused t)
