-- ===== src/Agent/Connection/Retries.antt =====
-- connmgr.go, `Connect`: how its loop ends.
use blazelog.Base.{
  ℕ, ◌+◌, ◌≡◌, ◌≤◌, ◌<◌, refl, subst, inl, inr, Bool, true, false, ◌&&◌, Option, some, List, [],
  ◌∷◌, length, ltb, leb, lt→ltb, if◌then◌else◌, arith, Bool-cases,
}
use blazelog.Agent.Connection.{
  disconnected, connecting, connected, Manager, set_state, Try, cancelled_first, no_client,
  cancelled_before_register, register_failed, cancelled_before_stream, stream_failed, succeeds,
  do_connect, Round, Outcome, established, cancelled, retries_exceeded, still_trying, finish,
  welcome, attempts_from, connect,
}

abbrev pub Over : Outcome → Type 0
Over still_trying = ⊥
Over _ = Unit {0}

do_connect-max_retries : (t : Try) (m : Manager) → (do_connect t m).1.max_retries ≡ m.max_retries
unfolding do_connect
do_connect-max_retries cancelled_first m = refl
do_connect-max_retries no_client m = refl
do_connect-max_retries (cancelled_before_register c) m = refl
do_connect-max_retries (register_failed c) m = refl
do_connect-max_retries (cancelled_before_stream c) m = refl
do_connect-max_retries (stream_failed c) m = refl
do_connect-max_retries (succeeds c id) m = refl

attempts_from_ends :
    (rounds : List Round) (a : ℕ) (m : Manager)
    → a < m.max_retries
    → m.max_retries ≤ a + length rounds
    → Over (attempts_from a rounds m).0
unfolding attempts_from
attempts_from_ends [] a m lt le = absurd (omega arith)
attempts_from_ends (r ∷ rest) a m lt le = elim (Bool-cases r.done_before) [
  | inl done ↦ rw done tt
  | inr open_yet ↦ elim (Bool-cases (do_connect r.trial m).0) [
    | inl up ↦ rw open_yet (rw up tt)
    | inr down ↦
        let positive : ltb 0 m.max_retries ≡ true = lt→ltb _ _ (omega arith) in
        elim (Bool-cases (leb m.max_retries (a + 1))) [
          | inl reached ↦ rw open_yet (rw down (rw positive (rw reached tt)))
          | inr below ↦ elim (Bool-cases r.done_waiting) [
            | inl done ↦ rw open_yet (rw down (rw positive (rw below (rw done tt))))
            | inr delayed ↦
                let same = do_connect-max_retries r.trial m in
                let short : a + 1 < m.max_retries = ground (arith, below) in
                rw open_yet (
                  rw down (
                    rw positive (
                      rw below (
                        rw delayed (
                          attempts_from_ends rest (a + 1)
                            (record (do_connect r.trial m).1 {
                              attempt = (do_connect r.trial m).1.attempt + 1;
                            })
                            (rw same short) (rw same (omega arith)))))))
          ]
        ]
  ]
]

-- With a positive maximum of retries, Connect ends within that many passes of its loop.
pub connect_ends :
    (rounds : List Round) (m : Manager)
    → 0 < m.max_retries
    → m.max_retries ≤ length rounds
    → Over (connect rounds m).0
unfolding connect
connect_ends rounds m positive enough =
    attempts_from_ends rounds 0 (set_state connecting m) positive (omega arith)

-- How a manager that was in a call of Connect is left.
abbrev pub Left : Option ℕ → Outcome × Manager → Type 0
Left before (established, m) =
    (m.state ≡ connected) × (m.attempt ≡ 0) × ((c : ℕ) × (m.client ≡ some c))
Left before (cancelled, m) = (m.state ≡ disconnected) × (m.client ≡ before)
Left before (retries_exceeded, m) = (m.state ≡ disconnected) × (m.client ≡ before)
Left before (still_trying, m) = m.client ≡ before

-- A try that succeeds leaves its client, and one that fails leaves the client as it was.
abbrev Tried : Option ℕ → Bool × Manager → Type 0
Tried before (true, m) = (c : ℕ) × (m.client ≡ some c)
Tried before (false, m) = m.client ≡ before

do_connect-Tried : (t : Try) (m : Manager) → Tried m.client (do_connect t m)
unfolding do_connect
do_connect-Tried cancelled_first m = refl
do_connect-Tried no_client m = refl
do_connect-Tried (cancelled_before_register c) m = refl
do_connect-Tried (register_failed c) m = refl
do_connect-Tried (cancelled_before_stream c) m = refl
do_connect-Tried (stream_failed c) m = refl
do_connect-Tried (succeeds c id) m = (c, refl)

attempts_from-Left :
    (rounds : List Round) (a : ℕ) (m : Manager) → Left m.client (attempts_from a rounds m)
unfolding attempts_from
attempts_from-Left [] a m = refl
attempts_from-Left (r ∷ rest) a m = elim (Bool-cases r.done_before) [
  | inl done ↦ rw done (refl, refl)
  | inr open_yet ↦ rw open_yet (
      by_try (do_connect r.trial m) (do_connect-Tried r.trial m) (λ w same.
        subst (λ c. Left c (attempts_from (a + 1) rest w)) same
          (attempts_from-Left rest (a + 1) w)))
]
  where
    by_try :
        (tried : Bool × Manager)
        → Tried m.client tried
        → ((w : Manager) → w.client ≡ m.client → Left m.client (attempts_from (a + 1) rest w))
        → Left m.client (
            let waiting = record tried.1 { attempt = tried.1.attempt + 1 } in
            let next = attempts_from (a + 1) rest waiting in
            if tried.0
            then (established, welcome tried.1)
            else if ltb 0 m.max_retries && leb m.max_retries (a + 1)
            then finish retries_exceeded tried.1
            else if r.done_waiting
            then finish cancelled waiting
            else next)
    by_try (true, w) t later = (refl, refl, t)
    by_try (false, w) t later =
        elim (Bool-cases (ltb 0 m.max_retries && leb m.max_retries (a + 1))) [
          | inl reached ↦ rw reached (refl, t)
          | inr below ↦ rw below (elim (Bool-cases r.done_waiting) [
            | inl done ↦ rw done (refl, t)
            | inr delayed ↦ rw delayed (later (record w { attempt = w.attempt + 1 }) t)
          ])
        ]

-- When Connect succeeds the state is connected, there is a client and the backoff starts again; when it
-- gives up the state is disconnected and the client is the one from before.
pub connect-Left : (rounds : List Round) (m : Manager) → Left m.client (connect rounds m)
unfolding connect
connect-Left rounds m = attempts_from-Left rounds 0 (set_state connecting m)
