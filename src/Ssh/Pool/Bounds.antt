-- ===== src/Ssh/Pool/Bounds.antt =====
-- pool.go: what holds of the whole pool after its operations.
use blazelog.Base.{
  ℕ, ◌≡◌, ◌≤◌, refl, sym, subst, inl, inr, String, Bool, Option, none, some, List, [], ◌∷◌, length,
  ◌==◌, arith, Bool-cases, Option-cases,
}
use blazelog.Base.Dict.{str_eq, lookup, insert}
use blazelog.Ssh.Pool.{Conn, Pool, Config, get, get_from_host_pool, conns_of, key_of}
use blazelog.Ssh.Pool.Upkeep.{
  release, free, holds, close, cleanup, is_stale, remaining, remaining_all,
}
use blazelog.Ssh.Pool.Scan.{get_from_host_pool-length}

-- Every host has at most so many connections.
abbrev pub Within : ℕ → List (String × List Conn) → Type 0
Within max [] = Unit {0}
Within max ((k, conns) ∷ rest) = (length conns ≤ max) × Within max rest

insert-Within :
    (max : ℕ) (k : String) (conns : List Conn) (m : List (String × List Conn))
    → length conns ≤ max
    → Within max m
    → Within max (insert k conns m)
unfolding insert
insert-Within max k conns [] le w = (le, tt)
insert-Within max k conns ((j, old) ∷ rest) le w = elim (Bool-cases (str_eq j k)) [
  | inl same ↦ rw same (le, w.1)
  | inr differs ↦ rw differs (w.0, insert-Within max k conns rest le w.1)
]

lookup-Within :
    (max : ℕ) (k : String) (m : List (String × List Conn))
    → Within max m
    → length (conns_of (lookup k m)) ≤ max
unfolding lookup
lookup-Within max k [] w = omega arith
lookup-Within max k ((j, conns) ∷ rest) w = elim (Bool-cases (str_eq j k)) [
  | inl same ↦ rw same w.0
  | inr differs ↦ rw differs (lookup-Within max k rest w.1)
]

length-free : (now c : ℕ) (conns : List Conn) → length (free now c conns) ≡ length conns
length-free now c [] = refl
length-free now c (x ∷ rest) = elim (Bool-cases (x.client == c)) [
  | inl same ↦ rw same refl
  | inr differs ↦ rw differs (omega (arith, length-free now c rest))
]

length-remaining :
    (now : ℕ) (connected : ℕ → Bool) (timeout : ℕ) (conns : List Conn)
    → length (remaining now connected timeout conns) ≤ length conns
length-remaining now connected timeout [] = omega arith
length-remaining now connected timeout (x ∷ rest) =
    elim (Bool-cases (is_stale now connected timeout x)) [
      | inl old ↦ rw old (omega (arith, length-remaining now connected timeout rest))
      | inr young ↦ rw young (omega (arith, length-remaining now connected timeout rest))
    ]

remaining_all-Within :
    (max now : ℕ) (connected : ℕ → Bool) (timeout : ℕ) (m : List (String × List Conn))
    → Within max m
    → Within max (remaining_all now connected timeout m)
remaining_all-Within max now connected timeout [] w = tt
remaining_all-Within max now connected timeout ((k, conns) ∷ rest) w = (
  omega (arith, w.0, length-remaining now connected timeout conns),
  remaining_all-Within max now connected timeout rest w.1,
)

pub data Operation : Type 0 where
  gets : (now : ℕ) (connected : ℕ → Bool) (fresh : ℕ) (connects : Bool) (key : String) → Operation
  releases : (now : ℕ) (client : Option ℕ) → Operation
  cleans : (now : ℕ) (connected : ℕ → Bool) → Operation
  closes : Operation

abbrev pub apply : Operation → Pool → Pool
apply (gets now connected fresh connects key) p = (get now connected fresh connects key p).1
apply (releases now c) p = release now c p
apply (cleans now connected) p = cleanup now connected p
apply closes p = close p

abbrev pub run : List Operation → Pool → Pool
run [] p = p
run (o ∷ rest) p = run rest (apply o p)

abbrev pub Bounded : Config → Pool → Type 0
Bounded config p = (p.config ≡ config) × Within config.max_per_host p.clients

get-Bounded :
    (config : Config) (now : ℕ) (connected : ℕ → Bool) (fresh : ℕ) (connects : Bool) (key : String)
    (p : Pool)
    → Bounded config p
    → Bounded config (get now connected fresh connects key p).1
unfolding get
get-Bounded config now connected fresh connects key p b = elim (Bool-cases p.closed) [
  | inl shut ↦ rw shut b
  | inr running ↦
      let max = p.config.max_per_host in
      let w : Within max p.clients = subst (λ c. Within c.max_per_host p.clients) (sym b.0) b.1 in
      let kept : Within max (
          insert key
            (get_from_host_pool now connected max fresh connects key
              (conns_of (lookup key p.clients))).conns
            p.clients) =
        insert-Within max key _ p.clients
          (get_from_host_pool-length now connected max fresh connects key
            (conns_of (lookup key p.clients)) (lookup-Within max key p.clients w))
          w in
      rw running (
        b.0,
        subst
            (λ c. Within c.max_per_host (
              insert key
                (get_from_host_pool now connected max fresh connects key
                  (conns_of (lookup key p.clients))).conns
                p.clients))
            b.0 kept,
      )
]

release-Bounded :
    (config : Config) (now : ℕ) (c : Option ℕ) (p : Pool)
    → Bounded config p
    → Bounded config (release now c p)
unfolding release
release-Bounded config now none p b = b
release-Bounded config now (some c) p b = elim (Bool-cases p.closed) [
  | inl shut ↦ rw shut b
  | inr running ↦ rw running (elim (Option-cases (key_of c p.client_keys)) [
    | inl unknown ↦ rw unknown b
    | inr (key, known) ↦ rw known (elim (Option-cases (lookup key p.clients)) [
      | inl no_host ↦ rw no_host b
      | inr (conns, host) ↦ rw host (elim (Bool-cases (holds c conns)) [
        | inr gone ↦ rw gone b
        | inl there ↦
            let size = lookup-Within config.max_per_host key p.clients b.1 in
            let size2 : length conns ≤ config.max_per_host = rw host at size in
            rw there (
              b.0,
              insert-Within config.max_per_host key (free now c conns) p.clients
                  (omega (arith, size2, length-free now c conns)) b.1,
            )
      ])
    ])
  ])
]

apply-Bounded :
    (config : Config) (o : Operation) (p : Pool) → Bounded config p → Bounded config (apply o p)
unfolding cleanup close
apply-Bounded config (gets now connected fresh connects key) p b =
    get-Bounded config now connected fresh connects key p b
apply-Bounded config (releases now c) p b = release-Bounded config now c p b
apply-Bounded config (cleans now connected) p b = elim (Bool-cases p.closed) [
  | inl shut ↦ rw shut b
  | inr running ↦ rw running (
    b.0,
    remaining_all-Within config.max_per_host now connected p.config.idle_timeout p.clients b.1,
  )
]
apply-Bounded config closes p b = elim (Bool-cases p.closed) [
  | inl shut ↦ rw shut b
  | inr running ↦ rw running (b.0, tt)
]

-- After any sequence of operations on a pool whose hosts have at most as many connections as its
-- configuration says, they still have, and the configuration is the same.
pub run-Bounded :
    (config : Config) (ops : List Operation) (p : Pool)
    → Bounded config p
    → Bounded config (run ops p)
run-Bounded config [] p b = b
run-Bounded config (o ∷ rest) p b = run-Bounded config rest (apply o p) (apply-Bounded config o p b)
