-- ===== src/Agent/Connection/Changes.antt =====
-- connmgr.go: the calls of onStateChange, and the clients after a reconnection and after Close.
use blazelog.Base.{
  ℕ, ◌+◌, ◌≡◌, refl, sym, subst, ◌∙◌, inl, inr, true, false, ◌&&◌, Option, none, some, List, [],
  ◌∷◌, ◌++◌, ltb, leb, Bool-cases,
}
use blazelog.Agent.Connection.{
  ConnState, disconnected, connecting, registering, connected, reconnecting, same_state, Manager,
  new_manager, set_state, Try, cancelled_first, no_client, cancelled_before_register,
  register_failed, cancelled_before_stream, stream_failed, succeeds, do_connect, Round,
  attempts_from, connect, handle_reconnect, shut_current, trigger_reconnect, take_signal, close,
  shut_last,
}
use blazelog.Agent.Connection.Retries.{Left, connect-Left}

same_state-eq : (a b : ConnState) → same_state a b ≡ true → a ≡ b
same_state-eq disconnected disconnected e = refl
same_state-eq disconnected connecting e = absurd (cc)
same_state-eq disconnected registering e = absurd (cc)
same_state-eq disconnected connected e = absurd (cc)
same_state-eq disconnected reconnecting e = absurd (cc)
same_state-eq connecting disconnected e = absurd (cc)
same_state-eq connecting connecting e = refl
same_state-eq connecting registering e = absurd (cc)
same_state-eq connecting connected e = absurd (cc)
same_state-eq connecting reconnecting e = absurd (cc)
same_state-eq registering disconnected e = absurd (cc)
same_state-eq registering connecting e = absurd (cc)
same_state-eq registering registering e = refl
same_state-eq registering connected e = absurd (cc)
same_state-eq registering reconnecting e = absurd (cc)
same_state-eq connected disconnected e = absurd (cc)
same_state-eq connected connecting e = absurd (cc)
same_state-eq connected registering e = absurd (cc)
same_state-eq connected connected e = refl
same_state-eq connected reconnecting e = absurd (cc)
same_state-eq reconnecting disconnected e = absurd (cc)
same_state-eq reconnecting connecting e = absurd (cc)
same_state-eq reconnecting registering e = absurd (cc)
same_state-eq reconnecting connected e = absurd (cc)
same_state-eq reconnecting reconnecting e = refl

abbrev last_of : ConnState → List ConnState → ConnState
last_of s [] = s
last_of s (t ∷ rest) = last_of t rest

-- Each state differs from the one before it.
abbrev NoRepeat : ConnState → List ConnState → Type 0
NoRepeat s [] = Unit {0}
NoRepeat s (t ∷ rest) = (same_state s t ≡ false) × NoRepeat t rest

last_of-append : (s t : ConnState) (xs : List ConnState) → last_of s (xs ++ t ∷ []) ≡ t
last_of-append s t [] = refl
last_of-append s t (x ∷ xs) = last_of-append x t xs

append-NoRepeat :
    (s t : ConnState) (xs : List ConnState)
    → NoRepeat s xs
    → same_state (last_of s xs) t ≡ false
    → NoRepeat s (xs ++ t ∷ [])
append-NoRepeat s t [] n e = (e, tt)
append-NoRepeat s t (x ∷ xs) n e = (n.0, append-NoRepeat x t xs n.1 e)

-- What onStateChange was told, from the first state on: every change and nothing else.
abbrev pub Told : Manager → Type 0
Told m = (last_of disconnected m.changes ≡ m.state) × NoRepeat disconnected m.changes

set_state-Told : (s : ConnState) (m : Manager) → Told m → Told (set_state s m)
set_state-Told s m told = elim (Bool-cases (same_state m.state s)) [
  | inl same ↦ rw same (told.0 ∙ same_state-eq m.state s same, told.1)
  | inr differs ↦
      let before : same_state (last_of disconnected m.changes) s ≡ false =
        subst (λ x. same_state x s ≡ false) (sym told.0) differs in
      rw differs (
        last_of-append disconnected s m.changes,
        append-NoRepeat disconnected s m.changes told.1 before,
      )
]

do_connect-Told : (t : Try) (m : Manager) → Told m → Told (do_connect t m).1
unfolding do_connect
do_connect-Told cancelled_first m told = told
do_connect-Told no_client m told = told
do_connect-Told (cancelled_before_register c) m told = told
do_connect-Told (register_failed c) m told = set_state-Told registering m told
do_connect-Told (cancelled_before_stream c) m told = set_state-Told registering m told
do_connect-Told (stream_failed c) m told = set_state-Told registering m told
do_connect-Told (succeeds c id) m told = set_state-Told registering m told

attempts_from-Told :
    (rounds : List Round) (a : ℕ) (m : Manager) → Told m → Told (attempts_from a rounds m).1
unfolding attempts_from
attempts_from-Told [] a m told = told
attempts_from-Told (r ∷ rest) a m told =
    let tried = do_connect r.trial m in
    let told_tried = do_connect-Told r.trial m told in
    let waiting = record tried.1 { attempt = tried.1.attempt + 1 } in
    elim (Bool-cases r.done_before) [
      | inl done ↦ rw done (set_state-Told disconnected m told)
      | inr open_yet ↦ rw open_yet (elim (Bool-cases tried.0) [
        | inl up ↦ rw up (set_state-Told connected (record tried.1 { attempt = 0 }) told_tried)
        | inr down ↦ rw down (elim (Bool-cases (ltb 0 m.max_retries && leb m.max_retries (a + 1))) [
          | inl reached ↦ rw reached (set_state-Told disconnected tried.1 told_tried)
          | inr below ↦ rw below (elim (Bool-cases r.done_waiting) [
            | inl done ↦ rw done (set_state-Told disconnected waiting told_tried)
            | inr delayed ↦ rw delayed (attempts_from-Told rest (a + 1) waiting told_tried)
          ])
        ])
      ])
    ]

connect-Told : (rounds : List Round) (m : Manager) → Told m → Told (connect rounds m).1
unfolding connect
connect-Told rounds m told =
    attempts_from-Told rounds 0 (set_state connecting m) (set_state-Told connecting m told)

shut_current-Told : (c : Option ℕ) (m : Manager) → Told m → Told (shut_current c m)
shut_current-Told none m told = told
shut_current-Told (some c) m told = told

handle_reconnect-Told :
    (rounds : List Round) (m : Manager) → Told m → Told (handle_reconnect rounds m).1
unfolding handle_reconnect
handle_reconnect-Told rounds m told =
    connect-Told rounds _
      (shut_current-Told m.client (set_state reconnecting m) (set_state-Told reconnecting m told))

shut_last-Told : (c : Option ℕ) (m : Manager) → Told m → Told (shut_last c m)
shut_last-Told none m told = told
shut_last-Told (some c) m told = told

close-Told : (m : Manager) → Told m → Told (close m)
unfolding close
close-Told m told = elim (Bool-cases m.closed) [
  | inl shut ↦ rw shut told
  | inr running ↦
      let off = set_state disconnected (record m { closed = true }) in
      rw running (
        shut_last-Told off.client off
          (set_state-Told disconnected (record m { closed = true }) told))
]

pub data Operation : Type 0 where
  connects signalled : List Round → Operation
  triggers closes : Operation

abbrev pub apply : Operation → Manager → Manager
apply (connects rounds) m = (connect rounds m).1
apply (signalled rounds) m = take_signal rounds m
apply triggers m = trigger_reconnect m
apply closes m = close m

abbrev pub run : List Operation → Manager → Manager
run [] m = m
run (o ∷ rest) m = run rest (apply o m)

apply-Told : (o : Operation) (m : Manager) → Told m → Told (apply o m)
unfolding trigger_reconnect take_signal
apply-Told (connects rounds) m told = connect-Told rounds m told
apply-Told (signalled rounds) m told = elim (Bool-cases m.pending) [
  | inl waiting ↦ rw waiting (handle_reconnect-Told rounds (record m { pending = false }) told)
  | inr idle ↦ rw idle told
]
apply-Told triggers m told = told
apply-Told closes m told = close-Told m told

run_from-Told : (ops : List Operation) (m : Manager) → Told m → Told (run ops m)
run_from-Told [] m told = told
run_from-Told (o ∷ rest) m told = run_from-Told rest (apply o m) (apply-Told o m told)

-- After any sequence of operations on a new manager, onStateChange has been told every change of the
-- state, in order, and never the state that was there already.
pub run-Told : (ops : List Operation) (max : ℕ) → Told (run ops (new_manager max))
unfolding new_manager
run-Told ops max = run_from-Told ops (new_manager max) (refl, tt)

-- A reconnection that does not succeed leaves no client, and one that does leaves one, whatever client
-- was there before.
handle_reconnect-Left : (rounds : List Round) (m : Manager) → Left none (handle_reconnect rounds m)
unfolding handle_reconnect
handle_reconnect-Left rounds m =
    let off = shut_current m.client (set_state reconnecting m) in
    subst (λ c. Left c (handle_reconnect rounds m)) (gone m.client (set_state reconnecting m) refl)
      (connect-Left rounds (record off { parted = off.parted + 1 }))
  where
    gone : (c : Option ℕ) (w : Manager) → w.client ≡ c → (shut_current c w).client ≡ none
    gone none w e = e
    gone (some c) w e = refl
