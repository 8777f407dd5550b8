-- ===== src/Alerting/Engine/Tally.antt =====
-- engine.go: the statistics and the alert channel over any number of evaluations.
use blazelog.Base.{
  ℕ, ◌+◌, ◌≤◌, ◌≡◌, ◌⊎◌, inl, inr, refl, ap, sym, ◌∙◌, false, List, [], ◌∷◌, length, arith,
}
use blazelog.Alerting.Rule.{Platform, LogEntry, Rule}
use blazelog.Alerting.Engine.{Engine, Alert, new_engine}
use blazelog.Alerting.Engine.Evaluate.{receive, evaluate_at}
use blazelog.Alerting.Engine.Outcome.{triggers}
use blazelog.Alerting.Engine.Booking.{evaluate_each-Booked}

List-cases :
    {A : Type 0} → (xs : List A) → (xs ≡ []) ⊎ ((x : A) × (rest : List A) × (xs ≡ x ∷ rest))
List-cases [] = inl refl
List-cases (x ∷ xs) = inr (x, xs, refl)

module _ (p : Platform) where
  -- What happens to an engine: an entry is evaluated, or a reader takes an alert.
  pub data Input : Type 0 where
    arrives : LogEntry p → ℕ → (Rule p → ℕ) → Input
    received : Input

  -- The engine after the inputs, and how many alerts were raised and taken.
  pub record Progress : Type 0 where
    pub engine : Engine p
    pub raised_alerts : ℕ
    pub taken : ℕ
    pub entries : ℕ

  abbrev pub taken_from : List (Alert p) → ℕ
  taken_from [] = 0
  taken_from (_ ∷ _) = 1

  abbrev pub step : Progress → Input → Progress
  step s (arrives entry now clock) =
      let (e, alerts) = evaluate_at p s.engine entry now clock in
      record s {
        engine = e;
        raised_alerts = s.raised_alerts + length alerts;
        entries = s.entries + 1;
      }
  step s received = record s {
    engine = receive p s.engine;
    taken = s.taken + taken_from s.engine.alerts;
  }

  unfoldable pub run : Progress → List Input → Progress
  run s [] = s
  run s (i ∷ is) = run (step s i) is

  abbrev pub start : List (Rule p) → ℕ → Progress
  start rules capacity = record {
    engine = new_engine p rules capacity;
    raised_alerts = 0;
    taken = 0;
    entries = 0;
  }

  -- The books of a running engine that is not closed.
  pub record Balanced (capacity : ℕ) (s : Progress) : Type 0 where
    pub triggered : triggers s.engine.stats ≡ s.engine.stats.alerts_suppressed + s.raised_alerts
    pub accounted :
        length s.engine.alerts + s.taken + s.engine.stats.alerts_dropped ≡ s.raised_alerts
    pub bounded : length s.engine.alerts ≤ s.engine.capacity
    pub evaluated : s.engine.stats.entries_evaluated ≡ s.entries
    pub alive : s.engine.closed ≡ false
    pub same_size : s.engine.capacity ≡ capacity

  receive-Balanced :
      (c : ℕ) (s : Progress) (rest : List (Alert p))
      → Balanced c s
      → (k : ℕ) → length s.engine.alerts ≡ length rest + k
      → Balanced c (record s { engine = record s.engine { alerts = rest }; taken = s.taken + k })
  receive-Balanced c s rest v k e = record {
    triggered = v.triggered;
    accounted = omega (arith, v.accounted, e);
    bounded = omega (arith, v.bounded, e);
    evaluated = v.evaluated;
    alive = v.alive;
    same_size = v.same_size;
  }

  step-Balanced : (c : ℕ) (s : Progress) (i : Input) → Balanced c s → Balanced c (step s i)
  unfolding evaluate_at
  step-Balanced c s (arrives entry now clock) v =
      let e = record s.engine {
        stats = record s.engine.stats { entries_evaluated = s.engine.stats.entries_evaluated + 1 };
      } in
      let y = evaluate_each-Booked p e s.engine.rules entry now clock in
      record {
        triggered = omega (arith, y.balance, v.triggered);
        accounted = elim y.delivered [
          | inl shut ↦ absurd (let clash = sym shut ∙ v.alive in cc)
          | inr sent ↦ omega (arith, sent, v.accounted)
        ];
        bounded = elim y.waiting [
          | inl fewer ↦ omega (arith, fewer, v.bounded, y.room)
          | inr room ↦ omega (arith, room, y.room)
        ];
        evaluated = omega (arith, y.seen, v.evaluated);
        alive = y.still ∙ v.alive;
        same_size = y.room ∙ v.same_size;
      }
  step-Balanced c s received v = elim (List-cases s.engine.alerts) [
    | inl e ↦ rw e (receive-Balanced c s [] v 0 (ap length e ∙ omega arith))
    | inr (a, rest, e) ↦ rw e (receive-Balanced c s rest v 1 (ap length e ∙ omega arith))
  ]

  run-Balanced : (c : ℕ) (s : Progress) (is : List Input) → Balanced c s → Balanced c (run s is)
  unfolding run
  run-Balanced c s [] v = v
  run-Balanced c s (i ∷ is) v = run-Balanced c (step s i) is (step-Balanced c s i v)

  -- However entries arrive and alerts are taken: every time that a rule triggered, an alert was
  -- raised or suppressed; every raised alert was taken, waits in the channel or was counted as
  -- dropped; the channel holds no more than its buffer; and every entry was counted.
  pub run_tally :
      (rules : List (Rule p)) (capacity : ℕ) (is : List Input)
      → let s = run (start rules capacity) is in
        let stats = s.engine.stats in
        (stats.pattern_matches + stats.threshold_triggers + stats.expr_triggers
          ≡ stats.alerts_suppressed + s.raised_alerts)
        × (length s.engine.alerts + s.taken + stats.alerts_dropped ≡ s.raised_alerts)
        × (length s.engine.alerts ≤ capacity)
        × (stats.entries_evaluated ≡ s.entries)
  unfolding new_engine
  run_tally rules capacity is =
      let v = run-Balanced capacity (start rules capacity) is (record {
        triggered = refl;
        accounted = refl;
        bounded = omega arith;
        evaluated = refl;
        alive = refl;
        same_size = refl;
      }) in
      (v.triggered, v.accounted, omega (arith, v.bounded, v.same_size), v.evaluated)
