-- ===== src/Agent/Connection/Closed.antt =====
-- connmgr.go: a manager that connects after Close.
use blazelog.Base.{
  ℕ, ◌≡◌, refl, inl, inr, true, false, String, Bool, Option-cases, some, List, ◌∷◌, Bool-cases,
}
use blazelog.Agent.Connection.{
  connected, Manager, succeeds, do_connect, Round, established, connect, close,
}

close-closed : (m : Manager) → (close m).closed ≡ true
unfolding close
close-closed m = elim (Bool-cases m.closed) [
  | inl shut ↦ rw shut refl
  | inr running ↦ rw running (elim (Option-cases m.client) [
    | inl none_there ↦ rw none_there refl
    | inr (c, there) ↦ rw there refl
  ])
]

connect-established :
    (c : ℕ) (id : String) (done_waiting : Bool) (rest : List Round) (m : Manager)
    → m.closed ≡ true
    → let first : Round = record {
      done_before = false;
      trial = succeeds c id;
      done_waiting = done_waiting;
    } in
      let result = connect (first ∷ rest) m in
      (result.0 ≡ established)
      × (result.1.client ≡ some c)
      × (result.1.state ≡ connected)
      × (result.1.shut ≡ m.shut)
      × (close result.1 ≡ result.1)
unfolding connect do_connect close
connect-established c id done_waiting rest m shut = (refl, refl, refl, refl, rw shut refl)

-- Connect does not see that the manager was closed: when its first pass succeeds, a manager that was
-- closed is connected with the new client. No client was closed since, and Close does nothing to the
-- manager any more.
pub connect_after_close :
    (c : ℕ) (id : String) (done_waiting : Bool) (rest : List Round) (m : Manager)
    → let first : Round = record {
      done_before = false;
      trial = succeeds c id;
      done_waiting = done_waiting;
    } in
      let result = connect (first ∷ rest) (close m) in
      (result.0 ≡ established)
      × (result.1.client ≡ some c)
      × (result.1.state ≡ connected)
      × (result.1.shut ≡ (close m).shut)
      × (close result.1 ≡ result.1)
connect_after_close c id done_waiting rest m =
    connect-established c id done_waiting rest (close m) (close-closed m)
