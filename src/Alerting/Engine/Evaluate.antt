-- ===== src/Alerting/Engine/Evaluate.antt =====
-- internal/alerting/engine.go: expression rules, `EvaluateAt` over all rules, and the calls that
-- change the set of rules.
use blazelog.Base.{
  ℕ, ◌+◌, ◌⊎◌, inl, inr, String, Bool, true, false, Option, none, some, List, [], ◌∷◌, ◌++◌, length,
  ltb, ◌&&◌, if◌then◌else◌,
}
use blazelog.Base.Int.{pos}
use blazelog.Base.Dict.{str_eq}
use blazelog.Alerting.Rule.{
  Platform, Operator, eq, ne, gt, ge, lt, le, operator, LogEntry, AggregationConfig, Rule,
  is_enabled, matches_labels, matches_log_type,
}
use blazelog.Alerting.Rule.Validate.{RuleError, Checked, rejected, accepted, validate}
use blazelog.Alerting.Expr.{match_expr}
use blazelog.Alerting.Manager.{delete_rule, delete_all}
use blazelog.Alerting.Cooldown.{clear_cooldown, clear_all_cooldowns}
use blazelog.Alerting.Engine.{
  Engine, Alert, expression_matched, trigger, reset_window, counted, evaluate_pattern,
  evaluate_threshold,
}

module _ (p : Platform) where
  abbrev pub distance : p.Float → p.Float → p.Float
  distance a b =
      let diff = p.subtract a b in if p.less diff (p.of_int (pos 0)) then p.negate diff else diff

  abbrev pub compare_by : Option Operator → p.Float → p.Float → Bool
  compare_by none value threshold = false
  compare_by (some ge) value threshold = p.less_equal threshold value
  compare_by (some gt) value threshold = p.less threshold value
  compare_by (some le) value threshold = p.less_equal value threshold
  compare_by (some lt) value threshold = p.less value threshold
  compare_by (some eq) value threshold = p.less (distance value threshold) p.epsilon
  compare_by (some ne) value threshold = p.less_equal p.epsilon (distance value threshold)

  unfoldable pub compare_threshold : p.Float → p.Float → String → Bool
  compare_threshold value threshold op = compare_by (operator op) value threshold

  -- The count, or the events per minute.
  unfoldable pub aggregate : String → ℕ → ℕ → p.Float
  aggregate function window_duration n =
      if str_eq function "count"
      then p.of_int (pos n)
      else if str_eq function "rate" && p.less (p.of_int (pos 0)) (p.minutes window_duration)
      then p.divide (p.of_int (pos n)) (p.minutes window_duration)
      else p.of_int (pos 0)

  abbrev pub expr_reached :
      Engine p → Rule p → AggregationConfig p → ℕ → ℕ → Engine p × Option (Alert p)
  expr_reached e r agg now n =
      let value = aggregate agg.function agg.window_duration n in
      if compare_threshold value agg.threshold agg.operator
      then trigger p
          (record e { stats = record e.stats { expr_triggers = e.stats.expr_triggers + 1 } }) r now
          (reset_window p r)
          (record {
            rule_name = r.name;
            description = r.description;
            severity = r.severity;
            message =
                expression_matched r.condition.expression agg.function value agg.operator
                  agg.threshold agg.window;
            timestamp = now;
            count = n;
            threshold = p.to_int agg.threshold;
            window = agg.window;
            triggering_entry = none;
            notify = r.notify;
            labels = r.labels;
          })
      else (e, none)

  -- A rule without an aggregation, on which the code would panic once it matched, is left alone:
  -- `Validate` lets no such rule pass.
  abbrev pub expr_matched :
      Engine p → Rule p → Option (AggregationConfig p) → ℕ → ℕ → Engine p × Option (Alert p)
  expr_matched e r none now clock = (e, none)
  expr_matched e r (some agg) now clock =
      let c = counted p e r agg.window_duration now clock in
      expr_reached (record e { windows = c.0 }) r agg now c.1

  -- An error of the expression counts as no match.
  abbrev pub expr_holds : Option p.Program → LogEntry p → Bool
  expr_holds none entry = false
  expr_holds (some program) entry = elim (match_expr p program entry) [ none ↦ false | some b ↦ b ]

  unfoldable pub evaluate_expr :
      Engine p → Rule p → LogEntry p → ℕ → ℕ → Engine p × Option (Alert p)
  unfolding compare_threshold aggregate
  evaluate_expr e r entry now clock =
      if matches_labels p r entry
        && matches_log_type p r entry
        && expr_holds r.condition.compiled_expr entry
      then expr_matched e r r.condition.aggregation now clock
      else (e, none)

  -- The non-blocking send of `EvaluateAt`.
  abbrev pub send : Engine p → Alert p → Engine p
  send e alert =
      if e.closed
      then e
      else if ltb (length e.alerts) e.capacity
      then record e { alerts = e.alerts ++ (alert ∷ []) }
      else record e { stats = record e.stats { alerts_dropped = e.stats.alerts_dropped + 1 } }

  -- The switch on the rule's type.
  unfoldable pub evaluate_rule :
      Engine p → Rule p → LogEntry p → ℕ → ℕ → Engine p × Option (Alert p)
  unfolding evaluate_expr
  evaluate_rule e r entry now clock =
      if is_enabled p r
      then if str_eq r.type "pattern"
        then evaluate_pattern p e r entry now
        else if str_eq r.type "threshold"
        then evaluate_threshold p e r entry now clock
        else if str_eq r.type "expr"
        then evaluate_expr e r entry now clock
        else (e, none)
      else (e, none)

  abbrev pub deliver : Engine p × Option (Alert p) → Engine p × List (Alert p)
  deliver (e, none) = (e, [])
  deliver (e, some alert) = (send e alert, alert ∷ [])

  -- The loop of `EvaluateAt`.
  unfoldable pub evaluate_each :
      Engine p → List (Rule p) → LogEntry p → ℕ → (Rule p → ℕ) → Engine p × List (Alert p)
  unfolding evaluate_rule
  evaluate_each e [] entry now clock = (e, [])
  evaluate_each e (r ∷ rules) entry now clock =
      let (e1, raised) = deliver (evaluate_rule e r entry now (clock r)) in
      let (e2, rest) = evaluate_each e1 rules entry now clock in (e2, raised ++ rest)

  unfoldable pub evaluate_at : Engine p → LogEntry p → ℕ → (Rule p → ℕ) → Engine p × List (Alert p)
  unfolding evaluate_each
  evaluate_at e entry now clock =
      evaluate_each
        (record e { stats = record e.stats { entries_evaluated = e.stats.entries_evaluated + 1 } })
        e.rules entry now clock

  -- A reader takes the first alert from the channel.
  abbrev pub receive : Engine p → Engine p
  receive e = elim e.alerts [ [] ↦ e | _ ∷ rest ↦ record e { alerts = rest } ]

  abbrev pub add_checked : Engine p → Checked p → Engine p × Option RuleError
  add_checked e (rejected err) = (e, some err)
  add_checked e (accepted r) = (record e { rules = e.rules ++ (r ∷ []) }, none)

  unfoldable pub add_rule : Engine p → Rule p → Engine p × Option RuleError
  add_rule e r = add_checked e (validate p r)

  -- The rules without the first one of that name; `none` if there is none.
  unfoldable pub without_rule : String → List (Rule p) → Option (List (Rule p))
  without_rule name [] = none
  without_rule name (r ∷ rules) =
      let rest = without_rule name rules in
      if str_eq r.name name
      then some rules
      else elim rest [ none ↦ none | some left ↦ some (r ∷ left) ]

  unfoldable pub remove_rule : Engine p → String → Engine p × Bool
  unfolding without_rule
  remove_rule e name = elim (without_rule name e.rules) [
    | none ↦ (e, false)
    | some rules ↦ (
      record e {
        rules = rules;
        windows = delete_rule e.windows name;
        cooldowns = clear_cooldown e.cooldowns name;
      },
      true,
    )
  ]

  unfoldable pub find_rule : String → List (Rule p) → Option (Rule p)
  find_rule name [] = none
  find_rule name (r ∷ rules) =
      let rest = find_rule name rules in if str_eq r.name name then some r else rest

  abbrev pub get_rule : Engine p → String → Option (Rule p)
  get_rule e name = find_rule name e.rules

  unfoldable pub validate_all : List (Rule p) → RuleError ⊎ List (Rule p)
  validate_all [] = inr []
  validate_all (r ∷ rules) =
      let rest = validate_all rules in
      elim (validate p r) [
        | rejected err ↦ inl err
        | accepted r' ↦ elim rest [ inl err ↦ inl err | inr more ↦ inr (r' ∷ more) ]
      ]

  abbrev pub reload_checked : Engine p → RuleError ⊎ List (Rule p) → Engine p × Option RuleError
  reload_checked e (inl err) = (e, some err)
  reload_checked e (inr rules) = (
    record e {
      rules = rules;
      windows = delete_all e.windows;
      cooldowns = clear_all_cooldowns e.cooldowns;
    },
    none,
  )

  unfoldable pub reload_rules : Engine p → List (Rule p) → Engine p × Option RuleError
  unfolding validate_all
  reload_rules e rules = reload_checked e (validate_all rules)

  -- `Close`
  unfoldable pub close_engine : Engine p → Engine p
  close_engine e = record e { closed = true }
