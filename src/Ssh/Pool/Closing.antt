-- ===== src/Ssh/Pool/Closing.antt =====
-- pool.go: what `Close` and `cleanup` leave, and what `Stats` counts.
use blazelog.Base.{
  ℕ, ◌+◌, ◌-◌, ◌≡◌, ◌≤◌, refl, sym, subst, ◌⊎◌, ◌↔◌, inl, inr, String, Bool, true, false, Option,
  none, some, ◌∙◌, Option-cases, List, [], ◌∷◌, length, ltb, ltb→le, arith, Bool-cases,
}
use blazelog.Base.Dict.{str_eq, lookup}
use blazelog.Ssh.Pool.{Conn, Pool, new_pool, get, conns_of, key_of}
use blazelog.Ssh.Pool.Upkeep.{
  release, holds, close, cleanup, is_stale, remaining, HostStats, host_stats, hosts_stats, stats,
  remaining_all,
}
use blazelog.Ssh.Pool.Scan.{In}
use blazelog.Ssh.Pool.Bounds.{Operation, gets, releases, cleans, closes, apply, run}
use blazelog.Base.Int.{ℤ}

-- No channel was closed twice, and a pool that is closed has no connection.
abbrev pub Ended : Pool → Type 0
Ended p =
    (p.panicked ≡ false)
    × (p.close_ch_closed ≡ p.closed)
    × ((p.closed ≡ false) ⊎ ((p.clients ≡ []) × (p.client_keys ≡ [])))

release-Ended : (now : ℕ) (c : Option ℕ) (p : Pool) → Ended p → Ended (release now c p)
unfolding release
release-Ended now none p e = e
release-Ended now (some c) p e = elim (Bool-cases p.closed) [
  | inl shut ↦ rw shut (rw shut at e)
  | inr running ↦
      let still : p.close_ch_closed ≡ false = e.1 ∙ running in
      rw running (elim (Option-cases (key_of c p.client_keys)) [
        | inl unknown ↦ rw unknown (e.0, still, inl refl)
        | inr (key, known) ↦ rw known (elim (Option-cases (lookup key p.clients)) [
          | inl no_host ↦ rw no_host (e.0, still, inl refl)
          | inr (conns, host) ↦ rw host (elim (Bool-cases (holds c conns)) [
            | inr gone ↦ rw gone (e.0, still, inl refl)
            | inl there ↦ rw there (e.0, still, inl refl)
          ])
        ])
      ])
]

apply-Ended : (o : Operation) (p : Pool) → Ended p → Ended (apply o p)
unfolding get cleanup close
apply-Ended (gets now connected fresh connects key) p e = elim (Bool-cases p.closed) [
  | inl shut ↦ rw shut (rw shut at e)
  | inr running ↦ rw running (e.0, e.1 ∙ running, inl refl)
]
apply-Ended (releases now c) p e = release-Ended now c p e
apply-Ended (cleans now connected) p e = elim (Bool-cases p.closed) [
  | inl shut ↦ rw shut (rw shut at e)
  | inr running ↦ rw running (e.0, e.1 ∙ running, inl refl)
]
apply-Ended closes p e = elim (Bool-cases p.closed) [
  | inl shut ↦ rw shut (rw shut at e)
  | inr running ↦ rw running (rw e.0 (e.1 ∙ running), refl, inr (refl, refl))
]

each-Ended : (ops : List Operation) (p : Pool) → Ended p → Ended (run ops p)
each-Ended [] p e = e
each-Ended (o ∷ rest) p e = each-Ended rest (apply o p) (apply-Ended o p e)

-- Whatever operations come in whatever order on a new pool, closeCh is closed at most once, so that no
-- Close panics, it is closed exactly when the pool is, and a pool that is closed has no connection left
-- and gets none.
pub run-Ended :
    (ops : List Operation) (max_per_host idle_timeout interval : ℤ)
    → Ended (run ops (new_pool max_per_host idle_timeout interval))
unfolding new_pool
run-Ended ops max_per_host idle_timeout interval =
    each-Ended ops (new_pool max_per_host idle_timeout interval) (refl, refl, inl refl)

module _ (now : ℕ) (connected : ℕ → Bool) (timeout : ℕ) where
  -- In use, or connected and used within the idle timeout.
  abbrev pub Fresh : Conn → Type 0
  Fresh x = (x.in_use ≡ true) ⊎ ((connected x.client ≡ true) × (now - x.last_used ≤ timeout))

  stale_cases :
      (x : Conn)
      → (is_stale now connected timeout x ≡ false → Fresh x)
        × (Fresh x → is_stale now connected timeout x ≡ false)
  stale_cases x = elim (Bool-cases x.in_use) [
    | inl used ↦ (λ e. inl used, λ f. rw used refl)
    | inr idle ↦ elim (Bool-cases (ltb timeout (now - x.last_used))) [
      | inl late ↦ (
        λ e. (let e1 = rw idle at e in let e2 = rw late at e1 in absurd (cc)),
        λ f. elim f [ inl used ↦ absurd (cc) | inr good ↦ absurd (ground (arith, late, good.1)) ],
      )
      | inr early ↦ elim (Bool-cases (connected x.client)) [
        | inl up ↦ (λ e. inr (up, ltb→le _ _ early), λ f. rw idle (rw early (rw up refl)))
        | inr down ↦ (
          λ e.
              (let e1 = rw idle at e in
                let e2 = rw early at e1 in let e3 = rw down at e2 in absurd (cc)),
          λ f. elim f [ inl used ↦ absurd (cc) | inr good ↦ (let up = good.0 in absurd (cc)) ],
        )
      ]
    ]
  ]

  remaining-In :
      (x : Conn) (conns : List Conn)
      → (In x (remaining now connected timeout conns) → In x conns × Fresh x)
        × (In x conns × Fresh x → In x (remaining now connected timeout conns))
  remaining-In x [] = (λ i. absurd i, λ h. h.0)
  remaining-In x (y ∷ rest) =
      let later = remaining-In x rest in
      elim (Bool-cases (is_stale now connected timeout y)) [
        | inl old ↦ (
          λ i. (let r = later.0 (rw old at i) in (inr r.0, r.1)),
          λ h. rw old (elim h.0 [
            | inr there ↦ later.1 (there, h.1)
            | inl e ↦
                let young = (stale_cases x).1 h.1 in
                let young_y = subst (λ z. is_stale now connected timeout z ≡ false) e young in
                absurd (cc)
          ]),
        )
        | inr young ↦ (
          λ i. elim (rw young at i) [
            | inl e ↦ (inl e, subst Fresh (sym e) ((stale_cases y).0 young))
            | inr there ↦ (let r = later.0 there in (inr r.0, r.1))
          ],
          λ h. rw young (elim h.0 [ inl e ↦ inl e | inr there ↦ inr (later.1 (there, h.1)) ]),
        )
      ]

  lookup-remaining_all :
      (key : String) (m : List (String × List Conn))
      → conns_of (lookup key (remaining_all now connected timeout m))
        ≡ remaining now connected timeout (conns_of (lookup key m))
  unfolding lookup
  lookup-remaining_all key [] = refl
  lookup-remaining_all key ((k, conns) ∷ rest) = elim (Bool-cases (str_eq k key)) [
    | inl same ↦ rw same refl
    | inr differs ↦ rw differs (lookup-remaining_all key rest)
  ]

-- When the pool is open, cleanup leaves a connection of a host, as it was, exactly when it is in use, or
-- connected and used within the idle timeout.
cleanup-In :
    (p : Pool) (now : ℕ) (connected : ℕ → Bool) (key : String) (x : Conn)
    → p.closed ≡ false
    → In x (conns_of (lookup key (cleanup now connected p).clients))
      ↔ (In x (conns_of (lookup key p.clients)) × Fresh now connected p.config.idle_timeout x)
unfolding cleanup
cleanup-In p now connected key x running =
    let timeout = p.config.idle_timeout in
    let same = lookup-remaining_all now connected timeout key p.clients in
    let both = remaining-In now connected timeout x (conns_of (lookup key p.clients)) in
    rw running (
      subst (λ c. In x c ↔ (In x (conns_of (lookup key p.clients)) × Fresh now connected timeout x))
        (sym same) both)

host_stats_lem :
    (conns : List Conn)
    → ((host_stats conns).total ≡ length conns)
      × ((host_stats conns).used + (host_stats conns).idle ≡ length conns)
host_stats_lem [] = (refl, refl)
host_stats_lem (x ∷ rest) =
    let later = host_stats_lem rest in
    elim (Bool-cases x.in_use) [
      | inl used ↦ rw used (omega (arith, later.0), omega (arith, later.1))
      | inr idle ↦ rw idle (omega (arith, later.0), omega (arith, later.1))
    ]

abbrev pub connections : List (String × List Conn) → ℕ
connections [] = 0
connections ((k, conns) ∷ rest) = length conns + connections rest

abbrev pub in_use_and_idle : List (String × HostStats) → ℕ
in_use_and_idle [] = 0
in_use_and_idle ((k, s) ∷ rest) = s.used + s.idle + in_use_and_idle rest

-- Stats counts every connection of every host once, as in use or as idle.
stats_lem :
    (p : Pool) → ((stats p).1 ≡ connections p.clients) × (in_use_and_idle (stats p).0 ≡ (stats p).1)
unfolding stats
stats_lem p = each p.clients
  where
    each :
        (m : List (String × List Conn))
        → ((hosts_stats m).1 ≡ connections m)
          × (in_use_and_idle (hosts_stats m).0 ≡ (hosts_stats m).1)
    each [] = (refl, refl)
    each ((k, conns) ∷ rest) =
        let later = each rest in
        let here = host_stats_lem conns in
        (omega (arith, later.0, here.0), omega (arith, later.1, here.0, here.1))
