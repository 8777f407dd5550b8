-- ===== src/Alerting/Engine/Thresholds.antt =====
-- engine.go, `evaluateThreshold`: when a threshold rule raises an alert, and what that leaves.
use blazelog.Base.{
  ℕ, ◌<◌, ◌≡◌, inl, inr, refl, ap, sym, subst, ◌∙◌, String, true, false, Option, none, some, arith,
  Bool-cases, Option-cases,
}
use blazelog.Base.Int.{pos}
use blazelog.Base.Dict.{lookup, insert, str_eq_refl, lookup-insert}
use blazelog.Alerting.Rule.{Platform, LogEntry, Rule}
use blazelog.Alerting.Matcher.{match_threshold_condition}
use blazelog.Alerting.Cooldown.{is_on_cooldown}
use blazelog.Alerting.Window.{max_events_per_rule, reset}
use blazelog.Alerting.Window.Count.{count_at_bounds}
use blazelog.Alerting.Manager.{WindowManager, add_event_at, count, reset_rule}
use blazelog.Alerting.Manager.Caps.{Capped, add_event_at-Capped, count-Capped}
use blazelog.Alerting.Engine.{Engine, Alert, counted, count_below, evaluate_threshold}

count-reset_rule :
    (wm : WindowManager) (name : String) (now : ℕ) → (count (reset_rule wm name) name now).1 ≡ 0
unfolding count reset_rule reset
count-reset_rule wm name now = elim (Option-cases (lookup name wm.windows)) [
  | inl missing ↦ rw (reset_rule, missing, count, missing) refl
  | inr (w, found) ↦
      let put : lookup name (insert name (reset w) wm.windows) ≡ some (reset w) =
        rw (lookup-insert name name (reset w) wm.windows, str_eq_refl name) refl in
      rw (reset_rule, found, count, put) (omega (arith, count_at_bounds (reset w) now))
]

module _ (p : Platform) where
  -- A threshold rule whose threshold is larger than the number of events that a window holds never
  -- raises an alert: from windows within that number, its evaluation gives none and leaves the
  -- windows within it.
  pub evaluate_threshold_unreachable :
      (e : Engine p) (r : Rule p) (entry : LogEntry p) (now clock t : ℕ)
      → r.condition.threshold ≡ pos t
      → max_events_per_rule < t
      → Capped e.windows.windows
      → ((evaluate_threshold p e r entry now clock).1 ≡ none)
        × Capped (evaluate_threshold p e r entry now clock).0.windows.windows
  unfolding evaluate_threshold
  evaluate_threshold_unreachable e r entry now clock t is big c =
      let added = add_event_at-Capped e.windows r.name r.condition.window_duration now c in
      let (c', few) =
        count-Capped (add_event_at e.windows r.name r.condition.window_duration now) r.name clock
          added in
      let below : count_below (counted p e r r.condition.window_duration now clock).1
            r.condition.threshold
          ≡ true =
        ap (count_below (counted p e r r.condition.window_duration now clock).1) is
        ∙ ground (arith, few) in
      elim (Bool-cases (match_threshold_condition p r entry)) [
        | inr fails ↦ rw fails (refl, c)
        | inl does ↦ rw (does, below) (refl, c')
      ]

  abbrev count_of : Option (Alert p) → ℕ
  count_of none = 0
  count_of (some a) = a.count

  -- When a threshold rule raises an alert, the entry met the rule's condition, the alert's count is
  -- the number of events in the rule's window with the new one, it is not below the threshold, and
  -- the window is emptied: the next count is 0.
  pub evaluate_threshold_raised :
      (e : Engine p) (r : Rule p) (entry : LogEntry p) (now clock later : ℕ) (a : Alert p)
      → (evaluate_threshold p e r entry now clock).1 ≡ some a
      → (match_threshold_condition p r entry ≡ true)
        × (a.count
            ≡ (count
                (add_event_at e.windows r.name r.condition.window_duration now)
                r.name
                clock).1)
        × (count_below a.count r.condition.threshold ≡ false)
        × ((count (evaluate_threshold p e r entry now clock).0.windows r.name later).1 ≡ 0)
  unfolding evaluate_threshold
  evaluate_threshold_raised e r entry now clock later a is =
      let c = counted p e r r.condition.window_duration now clock in
      elim (Bool-cases (match_threshold_condition p r entry)) [
        | inr fails ↦ absurd (let clash = rw (evaluate_threshold, fails) at is in cc)
        | inl does ↦ elim (Bool-cases (count_below c.1 r.condition.threshold)) [
          | inl below ↦ absurd (let clash = rw (evaluate_threshold, does, below) at is in cc)
          | inr reached ↦ elim (Bool-cases (is_on_cooldown e.cooldowns r.name now)) [
            | inl on ↦ absurd (let clash = rw (evaluate_threshold, does, reached, on) at is in cc)
            | inr off ↦
                let made = rw (evaluate_threshold, does, reached, off) at is in
                let n : c.1 ≡ a.count = ap count_of made in
                (
                  does,
                  sym n,
                  subst (λ k. count_below k r.condition.threshold ≡ false) n reached,
                  rw (evaluate_threshold, does, reached, off) (count-reset_rule c.0 r.name later),
                )
          ]
        ]
      ]
