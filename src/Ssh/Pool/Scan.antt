-- ===== src/Ssh/Pool/Scan.antt =====
-- pool.go, `getFromHostPool`: which connection is handed out, and how many there are.
use blazelog.Base.{
  ℕ, zero, suc, ◌+◌, ◌-◌, ◌≡◌, ◌≤◌, ◌<◌, refl, subst, ◌⊎◌, inl, inr, String, Bool, true, false,
  List, [], ◌∷◌, ◌++◌, length, length-append, length-take, take, drop, ltb, leb, arith, Bool-cases,
}
use blazelog.Ssh.Pool.{
  Conn, Scanned, healthy, nothing, got, remove_connection, place, scan, inspect, take_use,
  after_scan, get_from_host_pool, conn_of, without,
}

-- Every connection of the list has the property.
abbrev pub All : (Conn → Type 0) → List Conn → Type 0
All P [] = Unit {0}
All P (x ∷ rest) = P x × All P rest

abbrev pub In : Conn → List Conn → Type 0
In x [] = ⊥
In x (y ∷ rest) = (x ≡ y) ⊎ In x rest

All-mono : (P Q : Conn → Type 0) (xs : List Conn) → ((x : Conn) → P x → Q x) → All P xs → All Q xs
All-mono P Q [] f a = tt
All-mono P Q (x ∷ xs) f a = (f x a.0, All-mono P Q xs f a.1)

All-In : (xs : List Conn) → All (λ x. In x xs) xs
All-In [] = tt
All-In (x ∷ xs) =
    (inl refl, All-mono (λ y. In y xs) (λ y. In y (x ∷ xs)) xs (λ y i. inr i) (All-In xs))

pub All-append : (P : Conn → Type 0) (xs ys : List Conn) → All P xs → All P ys → All P (xs ++ ys)
All-append P [] ys a b = b
All-append P (x ∷ xs) ys a b = (a.0, All-append P xs ys a.1 b)

pub All-take : (P : Conn → Type 0) (n : ℕ) (xs : List Conn) → All P xs → All P (take n xs)
All-take P zero xs a = tt
All-take P (suc n) [] a = tt
All-take P (suc n) (x ∷ xs) a = (a.0, All-take P n xs a.1)

pub All-drop : (P : Conn → Type 0) (n : ℕ) (xs : List Conn) → All P xs → All P (drop n xs)
All-drop P zero xs a = a
All-drop P (suc n) [] a = tt
All-drop P (suc n) (x ∷ xs) a = All-drop P n xs a.1

pub remove_connection-All :
    (P : Conn → Type 0) (array : List Conn) (live c : ℕ)
    → All P array
    → All P (remove_connection array live c).0
unfolding remove_connection
remove_connection-All P array live c a =
    let slice = take live array in
    let i = place c slice in
    elim (Bool-cases (ltb i (length slice))) [
      | inr absent ↦ rw absent a
      | inl there ↦ rw there (
          All-append P (take i array ++ drop (i + 1) slice) (drop (live - 1) array)
            (All-append P (take i array) (drop (i + 1) slice) (All-take P i array a)
              (All-drop P (i + 1) slice (All-take P live array a)))
            (All-drop P (live - 1) array a))
    ]

remove_connection_live :
    (array : List Conn) (live c : ℕ) → (remove_connection array live c).1 ≤ live
unfolding remove_connection
remove_connection_live array live c =
    elim (Bool-cases (ltb (place c (take live array)) (length (take live array)))) [
      | inr absent ↦ rw absent (omega arith)
      | inl there ↦ rw there (omega arith)
    ]

length-take_use : (now c : ℕ) (xs : List Conn) → length (take_use now c xs) ≡ length xs
length-take_use now c [] = refl
length-take_use now c (x ∷ xs) = omega (arith, length-take_use now c xs)

abbrev pub slice_of : Scanned → List Conn
slice_of (healthy c dead conns) = conns
slice_of (nothing dead conns) = conns

module _ (now : ℕ) (connected : ℕ → Bool) where
  -- The client was found idle and connected.
  abbrev Idle : (Conn → Type 0) → Scanned → Type 0
  Idle P (nothing dead conns) = Unit {0}
  Idle P (healthy c dead conns) =
      (x : Conn) × P x × (x.client ≡ c) × (x.in_use ≡ false) × (connected c ≡ true)

  inspect-Idle :
      (P : Conn → Type 0) (array rest : List Conn) (live : ℕ) (dead : List ℕ) (next : Scanned)
      (next_removed : ℕ → Scanned)
      → All P rest
      → Idle P next
      → ((c : ℕ) → Idle P (next_removed c))
      → Idle P (inspect now connected array live dead next next_removed rest)
  inspect-Idle P array [] live dead next next_removed b later removed = tt
  inspect-Idle P array (x ∷ rest) live dead next next_removed b later removed =
      elim (Bool-cases x.in_use) [
        | inl used ↦ rw used later
        | inr idle ↦ rw idle (elim (Bool-cases (connected x.client)) [
          | inl up ↦ rw up (x, b.0, refl, idle, up)
          | inr down ↦ rw down (removed x.client)
        ])
      ]

  scan-Idle :
      (P : Conn → Type 0) (n i : ℕ) (array : List Conn) (live : ℕ) (dead : List ℕ)
      → All P array
      → Idle P (scan now connected n i array live dead)
  unfolding scan
  scan-Idle P zero i array live dead a = tt
  scan-Idle P (suc n) i array live dead a =
      inspect-Idle P array (drop i array) live dead _ _ (All-drop P i array a)
        (scan-Idle P n (i + 1) array live dead a)
        (λ c. scan-Idle P n (i + 1) _ _ (dead ++ c ∷ []) (remove_connection-All P array live c a))

  inspect-length :
      (array rest : List Conn) (live : ℕ) (dead : List ℕ) (next : Scanned)
      (next_removed : ℕ → Scanned)
      → length (slice_of next) ≤ live
      → ((c : ℕ) → length (slice_of (next_removed c)) ≤ live)
      → length (slice_of (inspect now connected array live dead next next_removed rest)) ≤ live
  inspect-length array [] live dead next next_removed later removed =
      omega (arith, length-take live array)
  inspect-length array (x ∷ rest) live dead next next_removed later removed =
      elim (Bool-cases x.in_use) [
        | inl used ↦ rw used later
        | inr idle ↦ rw idle (elim (Bool-cases (connected x.client)) [
          | inl up ↦ rw up (
              omega (arith, length-take_use now x.client (take live array), length-take live array))
          | inr down ↦ rw down (removed x.client)
        ])
      ]

  scan-length :
      (n i : ℕ) (array : List Conn) (live : ℕ) (dead : List ℕ)
      → length (slice_of (scan now connected n i array live dead)) ≤ live
  unfolding scan
  scan-length zero i array live dead = omega (arith, length-take live array)
  scan-length (suc n) i array live dead =
      inspect-length array (drop i array) live dead _ _ (scan-length n (i + 1) array live dead)
        (λ c.
          let removed = remove_connection array live c in
          let shorter = scan-length n (i + 1) removed.0 removed.1 (dead ++ c ∷ []) in
          omega (arith, shorter, remove_connection_live array live c))

without-length : (c : ℕ) (conns : List Conn) → length (without c conns) ≤ length conns
without-length c conns =
    let removed = remove_connection conns (length conns) c in
    omega (arith, length-take removed.1 removed.0, remove_connection_live conns (length conns) c)

module _ (now : ℕ) (connected : ℕ → Bool) (max fresh : ℕ) (connects : Bool) (key : String) where
  -- A host that has at most the maximum of connections has no more after `getFromHostPool`.
  pub get_from_host_pool-length :
      (conns : List Conn)
      → length conns ≤ max
      → length (get_from_host_pool now connected max fresh connects key conns).conns ≤ max
  unfolding get_from_host_pool after_scan
  get_from_host_pool-length conns le =
      bounded (scan now connected (length conns) 0 conns (length conns) [])
        (scan-length now connected (length conns) 0 conns (length conns) [])
    where
      bounded :
          (r : Scanned)
          → length (slice_of r) ≤ length conns
          → length (after_scan max fresh connects now key r).conns ≤ max
      bounded (healthy c dead rest) h = omega (arith, h)
      bounded (nothing dead rest) h = elim (Bool-cases (leb max (length rest))) [
        | inl full ↦ rw full (omega (arith, h))
        | inr room ↦
            let extended = rest ++ conn_of now fresh key ∷ [] in
            let size = length-append rest (conn_of now fresh key ∷ []) in
            let below : length rest < max = ground (arith, room) in
            rw room (elim (Bool-cases connects) [
              | inl up ↦ rw up (omega (arith, size, below))
              | inr failed ↦ rw failed (omega (arith, size, below, without-length fresh extended))
            ])
      ]

  -- `getFromHostPool` hands out the new client, or one whose connection was idle and is connected.
  pub get_from_host_pool-idle :
      (conns : List Conn) (c : ℕ)
      → (get_from_host_pool now connected max fresh connects key conns).outcome ≡ got c
      → (c ≡ fresh)
        ⊎ ((x : Conn) × In x conns × (x.client ≡ c) × (x.in_use ≡ false) × (connected c ≡ true))
  unfolding get_from_host_pool after_scan
  get_from_host_pool-idle conns c =
      either (scan now connected (length conns) 0 conns (length conns) []) (
        scan-Idle now connected (λ x. In x conns) (length conns) 0 conns (length conns) []
          (All-In conns))
    where
      either :
          (r : Scanned)
          → Idle now connected (λ x. In x conns) r
          → (after_scan max fresh connects now key r).outcome ≡ got c
          → (c ≡ fresh)
            ⊎ ((x : Conn) × In x conns × (x.client ≡ c) × (x.in_use ≡ false) × (connected c ≡ true))
      either (healthy d dead rest) idle e =
          let same : d ≡ c = cc in
          subst
            (λ d.
              (d ≡ fresh)
              ⊎ ((x : Conn) × In x conns
                  × (x.client ≡ d)
                  × (x.in_use ≡ false)
                  × (connected d ≡ true)))
            same (inr idle)
      either (nothing dead rest) idle e = elim (Bool-cases (leb max (length rest))) [
        | inl full ↦ let e1 = rw full at e in absurd (cc)
        | inr room ↦
            let e1 = rw room at e in
            elim (Bool-cases connects) [
              | inl up ↦ let e2 = rw up at e1 in inl (cc)
              | inr down ↦ let e2 = rw down at e1 in absurd (cc)
            ]
      ]
