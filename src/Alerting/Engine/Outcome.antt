-- ===== src/Alerting/Engine/Outcome.antt =====
-- engine.go: the three ways in which the evaluation of a rule can end, and what they do to the
-- engine beside the windows.
use blazelog.Base.{
  ℕ, ◌+◌, ◌≡◌, inl, inr, refl, true, false, Option, none, some, ◌&&◌, Bool-cases, arith,
}
use blazelog.Base.Dict.{str_eq}
use blazelog.Alerting.Rule.{
  Platform, LogEntry, AggregationConfig, Rule, is_enabled, matches_labels, matches_log_type,
}
use blazelog.Alerting.Matcher.{match_pattern, match_threshold_condition}
use blazelog.Alerting.Manager.{WindowManager}
use blazelog.Alerting.Cooldown.{is_on_cooldown}
use blazelog.Alerting.Engine.{
  Engine, EngineStats, Alert, trigger, start_cooldown, reset_window, counted, count_below,
  evaluate_pattern, evaluate_threshold,
}
use blazelog.Alerting.Engine.Evaluate.{
  compare_threshold, aggregate, expr_matched, expr_holds, evaluate_expr, evaluate_rule,
}

-- How often a rule of any kind has triggered.
abbrev pub triggers : EngineStats → ℕ
triggers s = s.pattern_matches + s.threshold_triggers + s.expr_triggers

-- One more trigger, and nothing else.
pub record Ticked (s s' : EngineStats) : Type 0 where
  pub one_more : triggers s' ≡ triggers s + 1
  pub evaluated : s'.entries_evaluated ≡ s.entries_evaluated
  pub suppressed : s'.alerts_suppressed ≡ s.alerts_suppressed
  pub dropped : s'.alerts_dropped ≡ s.alerts_dropped

module _ (p : Platform) where
  pub data Outcome (e : Engine p) (r : Rule p) (now : ℕ)
      : Engine p × Option (Alert p) → Type 0 where
    quiet : (w : WindowManager) → Outcome e r now (record e { windows = w }, none)
    held_back :
        (w : WindowManager) (s : EngineStats)
        → Ticked e.stats s
        → is_on_cooldown e.cooldowns r.name now ≡ true
        → Outcome e r now (
          record e {
            windows = w;
            stats = record s { alerts_suppressed = s.alerts_suppressed + 1 };
          },
          none,
        )
    raised :
        (w : WindowManager) (s : EngineStats) (a : Alert p)
        → Ticked e.stats s
        → is_on_cooldown e.cooldowns r.name now ≡ false
        → a.rule_name ≡ r.name
        → Outcome e r now (
          record e { windows = w; stats = s; cooldowns = start_cooldown p e.cooldowns r now },
          some a,
        )

  -- Once the trigger is counted.
  trigger-Outcome :
      (e : Engine p) (r : Rule p) (now : ℕ) (w w' : WindowManager) (s : EngineStats) (a : Alert p)
      (settle : Engine p → Engine p)
      → Ticked e.stats s
      → a.rule_name ≡ r.name
      → settle (record e { windows = w; stats = s; cooldowns = start_cooldown p e.cooldowns r now })
        ≡ record e { windows = w'; stats = s; cooldowns = start_cooldown p e.cooldowns r now }
      → Outcome e r now (trigger p (record e { windows = w; stats = s }) r now settle a)
  trigger-Outcome e r now w w' s a settle t named kept =
      elim (Bool-cases (is_on_cooldown e.cooldowns r.name now)) [
        | inl on ↦ rw on (held_back w s t on)
        | inr off ↦ rw (off, kept) (raised w' s a t off named)
      ]

  pattern-Outcome :
      (e : Engine p) (r : Rule p) (entry : LogEntry p) (now : ℕ)
      → Outcome e r now (evaluate_pattern p e r entry now)
  unfolding evaluate_pattern
  pattern-Outcome e r entry now = elim (Bool-cases (match_pattern p r entry)) [
    | inr fails ↦ rw fails (quiet e.windows)
    | inl does ↦ rw does (
        trigger-Outcome e r now e.windows e.windows
          (record e.stats { pattern_matches = e.stats.pattern_matches + 1 }) _ (λ e'. e')
          (record { one_more = omega arith; evaluated = refl; suppressed = refl; dropped = refl })
          refl refl)
  ]

  threshold-Outcome :
      (e : Engine p) (r : Rule p) (entry : LogEntry p) (now clock : ℕ)
      → Outcome e r now (evaluate_threshold p e r entry now clock)
  unfolding evaluate_threshold
  threshold-Outcome e r entry now clock = elim (Bool-cases (match_threshold_condition p r entry)) [
    | inr fails ↦ rw fails (quiet e.windows)
    | inl does ↦
        let (w, n) = counted p e r r.condition.window_duration now clock in
        rw does (elim (Bool-cases (count_below n r.condition.threshold)) [
          | inl below ↦ rw below (quiet w)
          | inr reached ↦ rw reached (
              trigger-Outcome e r now w _
                (record e.stats { threshold_triggers = e.stats.threshold_triggers + 1 }) _
                (reset_window p r)
                (record {
                  one_more = omega arith;
                  evaluated = refl;
                  suppressed = refl;
                  dropped = refl;
                })
                refl refl)
        ])
  ]

  aggregate-Outcome :
      (e : Engine p) (r : Rule p) (agg : Option (AggregationConfig p)) (now clock : ℕ)
      → Outcome e r now (expr_matched p e r agg now clock)
  aggregate-Outcome e r none now clock = quiet e.windows
  aggregate-Outcome e r (some agg) now clock =
      let (w, n) = counted p e r agg.window_duration now clock in
      let reached =
        compare_threshold p (aggregate p agg.function agg.window_duration n) agg.threshold
          agg.operator in
      elim (Bool-cases reached) [
        | inr below ↦ rw below (quiet w)
        | inl above ↦ rw above (
            trigger-Outcome e r now w _
              (record e.stats { expr_triggers = e.stats.expr_triggers + 1 }) _ (reset_window p r)
              (record {
                one_more = omega arith;
                evaluated = refl;
                suppressed = refl;
                dropped = refl;
              })
              refl refl)
      ]

  expr-Outcome :
      (e : Engine p) (r : Rule p) (entry : LogEntry p) (now clock : ℕ)
      → Outcome e r now (evaluate_expr p e r entry now clock)
  unfolding evaluate_expr
  expr-Outcome e r entry now clock =
      let matches =
        matches_labels p r entry
        && matches_log_type p r entry
        && expr_holds p r.condition.compiled_expr entry in
      elim (Bool-cases matches) [
        | inl does ↦ rw does (aggregate-Outcome e r r.condition.aggregation now clock)
        | inr fails ↦ rw fails (quiet e.windows)
      ]

  -- Every evaluation of a rule, of whatever kind, ends in one of the three ways.
  pub evaluate_rule-Outcome :
      (e : Engine p) (r : Rule p) (entry : LogEntry p) (now clock : ℕ)
      → Outcome e r now (evaluate_rule p e r entry now clock)
  unfolding evaluate_rule
  evaluate_rule-Outcome e r entry now clock = elim (Bool-cases (is_enabled p r)) [
    | inr off ↦ rw off (quiet e.windows)
    | inl on ↦ rw on (elim (Bool-cases (str_eq r.type "pattern")) [
      | inl first ↦ rw first (pattern-Outcome e r entry now)
      | inr not_first ↦ rw not_first (elim (Bool-cases (str_eq r.type "threshold")) [
        | inl second ↦ rw second (threshold-Outcome e r entry now clock)
        | inr not_second ↦ rw not_second (elim (Bool-cases (str_eq r.type "expr")) [
          | inl third ↦ rw third (expr-Outcome e r entry now clock)
          | inr not_third ↦ rw not_third (quiet e.windows)
        ])
      ])
    ])
  ]
