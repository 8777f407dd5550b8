-- ===== src/Alerting/Engine/Booking.antt =====
-- engine.go: what one evaluation of an entry means for the statistics and the alert channel.
use blazelog.Base.{
  ℕ, ◌+◌, ◌≤◌, ◌≡◌, ◌⊎◌, inl, inr, refl, ap, sym, ◌∙◌, true, Option, List, [], ◌∷◌, length, ltb,
  Bool-cases, arith, length-append, ltb→lt,
}
use blazelog.Alerting.Rule.{Platform, LogEntry, Rule}
use blazelog.Alerting.Engine.{Engine, Alert}
use blazelog.Alerting.Engine.Evaluate.{deliver, send, evaluate_rule, evaluate_each}
use blazelog.Alerting.Engine.Outcome.{
  triggers, Outcome, quiet, held_back, raised, evaluate_rule-Outcome,
}

module _ (p : Platform) where
  -- What `n` alerts more mean for the numbers of the engine.
  pub record Booked (e e' : Engine p) (n : ℕ) : Type 0 where
    pub balance :
        triggers e'.stats + e.stats.alerts_suppressed
        ≡ triggers e.stats + e'.stats.alerts_suppressed + n
    pub delivered :
        (e.closed ≡ true)
        ⊎ (length e'.alerts + e'.stats.alerts_dropped
            ≡ length e.alerts + e.stats.alerts_dropped + n)
    pub waiting : (length e'.alerts ≤ length e.alerts) ⊎ (length e'.alerts ≤ e.capacity)
    pub room : e'.capacity ≡ e.capacity
    pub still : e'.closed ≡ e.closed
    pub seen : e'.stats.entries_evaluated ≡ e.stats.entries_evaluated

  none-Booked :
      (e e' : Engine p)
      → triggers e'.stats + e.stats.alerts_suppressed
        ≡ triggers e.stats + e'.stats.alerts_suppressed
      → e'.stats.alerts_dropped ≡ e.stats.alerts_dropped
      → e'.stats.entries_evaluated ≡ e.stats.entries_evaluated
      → e'.alerts ≡ e.alerts
      → e'.capacity ≡ e.capacity
      → e'.closed ≡ e.closed
      → Booked e e' 0
  none-Booked e e' balance dropped seen alerts room still =
      let same = ap length alerts in
      record {
        balance = omega (arith, balance);
        delivered = inr (omega (arith, same, dropped));
        waiting = inl (omega (arith, same));
        room = room;
        still = still;
        seen = seen;
      }

  send-Booked :
      (e e' : Engine p) (a : Alert p)
      → triggers e'.stats + e.stats.alerts_suppressed
        ≡ triggers e.stats + e'.stats.alerts_suppressed + 1
      → e'.stats.alerts_dropped ≡ e.stats.alerts_dropped
      → e'.stats.entries_evaluated ≡ e.stats.entries_evaluated
      → e'.alerts ≡ e.alerts
      → e'.capacity ≡ e.capacity
      → e'.closed ≡ e.closed
      → Booked e (send p e' a) 1
  send-Booked e e' a balance dropped seen alerts room still =
      let same = ap length alerts in
      let more = length-append e'.alerts (a ∷ []) in
      elim (Bool-cases e'.closed) [
        | inl shut ↦ rw shut (record {
          balance = balance;
          delivered = inl (sym still ∙ shut);
          waiting = inl (omega (arith, same));
          room = room;
          still = sym shut ∙ still;
          seen = seen;
        })
        | inr alive ↦ rw alive (elim (Bool-cases (ltb (length e'.alerts) e'.capacity)) [
          | inl fits ↦ rw fits (record {
            balance = balance;
            delivered = inr (omega (arith, same, dropped, more));
            waiting = inr (omega (arith, more, ltb→lt (length e'.alerts) e'.capacity fits, room));
            room = room;
            still = sym alive ∙ still;
            seen = seen;
          })
          | inr full ↦ rw full (record {
            balance = balance;
            delivered = inr (omega (arith, same, dropped));
            waiting = inl (omega (arith, same));
            room = room;
            still = sym alive ∙ still;
            seen = seen;
          })
        ])
      ]

  deliver-Booked :
      (e : Engine p) (r : Rule p) (now : ℕ) (res : Engine p × Option (Alert p))
      → Outcome p e r now res
      → Booked e (deliver p res).0 (length (deliver p res).1)
  deliver-Booked e r now _ (quiet w) =
      none-Booked e (record e { windows = w }) (omega arith) refl refl refl refl refl
  deliver-Booked e r now _ (held_back w s t on) =
      none-Booked e _ (omega (arith, t.one_more, t.suppressed)) t.dropped t.evaluated refl refl refl
  deliver-Booked e r now _ (raised w s a t off named) =
      send-Booked e _ a (omega (arith, t.one_more, t.suppressed)) t.dropped t.evaluated refl refl
        refl

  both-Booked :
      (e e1 e2 : Engine p) (m n : ℕ) → Booked e e1 m → Booked e1 e2 n → Booked e e2 (m + n)
  both-Booked e e1 e2 m n x y = record {
    balance = omega (arith, x.balance, y.balance);
    delivered = elim y.delivered [
      | inl shut ↦ inl (sym x.still ∙ shut)
      | inr after ↦ elim x.delivered [
        | inl shut ↦ inl shut
        | inr first ↦ inr (omega (arith, after, first))
      ]
    ];
    waiting = elim y.waiting [
      | inl after ↦ elim x.waiting [
        | inl first ↦ inl (omega (arith, after, first))
        | inr first ↦ inr (omega (arith, after, first))
      ]
      | inr after ↦ inr (omega (arith, after, x.room))
    ];
    room = y.room ∙ x.room;
    still = y.still ∙ x.still;
    seen = y.seen ∙ x.seen;
  }

  pub evaluate_each-Booked :
      (e : Engine p) (rules : List (Rule p)) (entry : LogEntry p) (now : ℕ) (clock : Rule p → ℕ)
      → Booked e
          (evaluate_each p e rules entry now clock).0
          (length (evaluate_each p e rules entry now clock).1)
  unfolding evaluate_each
  evaluate_each-Booked e [] entry now clock = none-Booked e e refl refl refl refl refl refl
  evaluate_each-Booked e (r ∷ rules) entry now clock =
      let (e1, first) = deliver p (evaluate_rule p e r entry now (clock r)) in
      let x = deliver-Booked e r now _ (evaluate_rule-Outcome p e r entry now (clock r)) in
      let y = evaluate_each-Booked e1 rules entry now clock in
      let both = both-Booked e e1 (evaluate_each p e1 rules entry now clock).0 _ _ x y in
      rw (length-append first (evaluate_each p e1 rules entry now clock).1) both
