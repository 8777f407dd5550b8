-- ===== src/Ssh/Pool/InUse.antt =====
-- pool.go, `getFromHostPool`: a connection that is in use stays in the host's pool.
use blazelog.Base.{
  ℕ, zero, suc, ◌+◌, ◌-◌, ◌≡◌, ◌≢◌, ◌≤◌, refl, sym, ap, subst, ◌∙◌, inl, inr, String, Bool, true,
  List, [], ◌∷◌, ◌++◌, length, append-nil, length-append, length-take, length-drop, take, drop, ltb,
  ltb→lt, leb, ◌==◌, arith, max, Bool-cases,
}
use blazelog.Ssh.Pool.{
  Conn, Scanned, healthy, nothing, remove_connection, place, scan, inspect, take_use, after_scan,
  get_from_host_pool, conn_of, without,
}
use blazelog.Ssh.Pool.Scan.{All, All-drop, In, remove_connection-All, slice_of}

In-append_left : (x : Conn) (xs ys : List Conn) → In x xs → In x (xs ++ ys)
In-append_left x [] ys i = absurd i
In-append_left x (y ∷ xs) ys i = elim i [ inl e ↦ inl e | inr j ↦ inr (In-append_left x xs ys j) ]

In-take :
    (x : Conn) (n : ℕ) (xs ys : List Conn) → In x xs → length xs ≤ n → In x (take n (xs ++ ys))
In-take x n [] ys i h = absurd i
In-take x zero (y ∷ xs) ys i h = absurd (omega arith)
In-take x (suc n) (y ∷ xs) ys i h = elim i [
  | inl e ↦ inl e
  | inr j ↦ inr (In-take x n xs ys j (omega arith))
]

take-take_le : (i n : ℕ) (xs : List Conn) → i ≤ n → take i (take n xs) ≡ take i xs
take-take_le zero n xs h = refl
take-take_le (suc i) zero xs h = absurd (omega arith)
take-take_le (suc i) (suc n) [] h = refl
take-take_le (suc i) (suc n) (x ∷ xs) h = ap (λ r. x ∷ r) (take-take_le i n xs (omega arith))

-- What is left without the first connection of another client.
In-without_place :
    (x : Conn) (c : ℕ) (xs : List Conn)
    → (x.client ≡ c → ⊥)
    → In x xs
    → In x (take (place c xs) xs ++ drop (place c xs + 1) xs)
In-without_place x c [] other i = absurd i
In-without_place x c (y ∷ xs) other i = elim (Bool-cases (y.client == c)) [
  | inl same ↦
      let client : y.client ≡ c = ground (arith, same) in
      rw same (elim i [ inl e ↦ absurd (other (ap (λ k. k.client) e ∙ client)) | inr j ↦ j ])
  | inr differs ↦
      let next : place c xs + 1 ≡ suc (place c xs) = omega arith in
      let after : suc (place c xs) + 1 ≡ suc (place c xs + 1) = omega arith in
      rw differs (
        rw next
          (rw after (elim i [ inl e ↦ inl e | inr j ↦ inr (In-without_place x c xs other j) ])))
]

-- No idle connection has the client of `x`.
abbrev pub Apart : Conn → Conn → Type 0
Apart x y = y.client ≡ x.client → y.in_use ≡ true

In-remove_connection :
    (x : Conn) (array : List Conn) (live c : ℕ)
    → (x.client ≡ c → ⊥)
    → In x (take live array)
    → In x (take (remove_connection array live c).1 (remove_connection array live c).0)
unfolding remove_connection
In-remove_connection x array live c other i =
    elim (Bool-cases (ltb (place c (take live array)) (length (take live array)))) [
      | inr absent ↦ rw absent i
      | inl there ↦
          let slice = take live array in
          let n = place c slice in
          let below = ltb→lt n (length slice) there in
          let size = length-take live array in
          let front : take n slice ≡ take n array = take-take_le n live array (omega arith) in
          let left : In x (take n array ++ drop (n + 1) slice) =
            subst (λ t. In x (t ++ drop (n + 1) slice)) front
              (In-without_place x c slice other i) in
          rw there (
            In-take x (live - 1) (take n array ++ drop (n + 1) slice) (drop (live - 1) array) left (
              omega (
                arith,
                length-append (take n array) (drop (n + 1) slice),
                length-take n array,
                length-drop (n + 1) slice,
              )))
    ]

In-take_use :
    (x : Conn) (now c : ℕ) (xs : List Conn)
    → (x.client ≡ c → ⊥)
    → In x xs
    → In x (take_use now c xs)
In-take_use x now c [] other i = absurd i
In-take_use x now c (y ∷ xs) other i = elim i [
  | inr j ↦ inr (In-take_use x now c xs other j)
  | inl e ↦ elim (Bool-cases (y.client == c)) [
    | inl same ↦
        let client : y.client ≡ c = ground (arith, same) in
        absurd (other (ap (λ k. k.client) e ∙ client))
    | inr differs ↦ rw differs (inl e)
  ]
]

module _ (now : ℕ) (connected : ℕ → Bool) (x : Conn) (used : x.in_use ≡ true) where
  inspect-In :
      (array rest : List Conn) (live : ℕ) (dead : List ℕ) (next : Scanned)
      (next_removed : ℕ → Scanned)
      → All (Apart x) rest
      → In x (take live array)
      → In x (slice_of next)
      → ((c : ℕ) → (x.client ≡ c → ⊥) → In x (slice_of (next_removed c)))
      → In x (slice_of (inspect now connected array live dead next next_removed rest))
  inspect-In array [] live dead next next_removed b i later removed = i
  inspect-In array (y ∷ rest) live dead next next_removed b i later removed =
      elim (Bool-cases y.in_use) [
        | inl busy ↦ rw busy later
        | inr idle ↦
            let other : x.client ≡ y.client → ⊥ = λ e. (let busy = b.0 (sym e) in absurd (cc)) in
            rw idle (elim (Bool-cases (connected y.client)) [
              | inl up ↦ rw up (In-take_use x now y.client (take live array) other i)
              | inr down ↦ rw down (removed y.client other)
            ])
      ]

  scan-In :
      (n i : ℕ) (array : List Conn) (live : ℕ) (dead : List ℕ)
      → All (Apart x) array
      → In x (take live array)
      → In x (slice_of (scan now connected n i array live dead))
  unfolding scan
  scan-In zero i array live dead a there = there
  scan-In (suc n) i array live dead a there =
      inspect-In array (drop i array) live dead _ _ (All-drop (Apart x) i array a) there
        (scan-In n (i + 1) array live dead a there)
        (λ c other.
          scan-In n (i + 1) _ _ (dead ++ c ∷ []) (remove_connection-All (Apart x) array live c a)
            (In-remove_connection x array live c other there))

  In-take-length : (xs : List Conn) → In x xs → In x (take (length xs) xs)
  In-take-length xs i =
      subst (λ t. In x (take (length xs) t)) (append-nil xs)
        (In-take x (length xs) xs [] i (omega arith))

  without-In :
      (c : ℕ) (conns : List Conn) → (x.client ≡ c → ⊥) → In x conns → In x (without c conns)
  without-In c conns other i =
      In-remove_connection x conns (length conns) c other (In-take-length conns i)

  -- When no idle connection of the host has the client of a connection in use, and the new client is
  -- another, getFromHostPool leaves that connection in the host's pool as it is.
  pub get_from_host_pool-In :
      (max fresh : ℕ) (connects : Bool) (key : String) (conns : List Conn)
      → All (Apart x) conns
      → x.client ≢ fresh
      → In x conns
      → In x (get_from_host_pool now connected max fresh connects key conns).conns
  unfolding get_from_host_pool after_scan
  get_from_host_pool-In max fresh connects key conns a other i =
      kept (scan now connected (length conns) 0 conns (length conns) [])
        (scan-In (length conns) 0 conns (length conns) [] a (In-take-length conns i))
    where
      kept :
          (r : Scanned) → In x (slice_of r) → In x (after_scan max fresh connects now key r).conns
      kept (healthy d dead rest) j = j
      kept (nothing dead rest) j = elim (Bool-cases (leb max (length rest))) [
        | inl full ↦ rw full j
        | inr room ↦
            let more = In-append_left x rest (conn_of now fresh key ∷ []) j in
            rw room (elim (Bool-cases connects) [
              | inl up ↦ rw up more
              | inr down ↦
                  rw down (without-In fresh (rest ++ conn_of now fresh key ∷ []) other more)
            ])
      ]
