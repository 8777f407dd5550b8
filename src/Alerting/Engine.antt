-- ===== src/Alerting/Engine.antt =====
-- internal/alerting/engine.go, `Engine`: log entries against the rules, one evaluation at a time.
-- `windows.Count` reads the clock anew for each rule: `clock r` is what it reads for the rule r.
pub mod Evaluate
pub mod Outcome
pub mod Booking
pub mod Tally
pub mod Spacing
pub mod Thresholds
pub mod RuleSet
use blazelog.Base.{
  ℕ, ◌+◌, ◌-◌, ◌≡◌, refl, String, Bool, true, false, Option, none, some, List, [], ◌∷◌, ◌++◌,
  length, ltb, ◌==◌, ◌&&◌, ◌||◌, not, if◌then◌else◌,
}
use blazelog.Base.Int.{ℤ, pos, negsuc}
use blazelog.Base.Dict.{str_eq}
use blazelog.Alerting.Rule.{
  Platform, Operator, eq, ne, gt, ge, lt, le, operator, LogEntry, AggregationConfig, Rule,
  is_enabled, matches_labels, matches_log_type,
}
use blazelog.Alerting.Rule.Validate.{RuleError, Checked, rejected, accepted, validate}
use blazelog.Alerting.Matcher.{match_pattern, match_threshold_condition}
use blazelog.Alerting.Expr.{match_expr}
use blazelog.Alerting.Manager.{
  WindowManager, new_window_manager, add_event_at, reset_rule, delete_rule, delete_all, count,
}
use blazelog.Alerting.Cooldown.{
  Cooldowns, is_on_cooldown, set_cooldown, clear_cooldown, clear_all_cooldowns,
}

pub record EngineStats : Type 0 where
  pub entries_evaluated : ℕ
  pub pattern_matches : ℕ
  pub threshold_triggers : ℕ
  pub expr_triggers : ℕ
  pub alerts_suppressed : ℕ
  pub alerts_dropped : ℕ

-- `count < threshold`, where a threshold may be negative
abbrev pub count_below : ℕ → ℤ → Bool
count_below n (pos t) = ltb n t
count_below n (negsuc t) = false

module _ (p : Platform) where
  -- The message is what `Sprintf` is given.
  pub data Message : Type 0 where
    pattern_match : String → Message
    threshold_exceeded : ℕ → String → ℤ → Message
    expression_matched : String → String → p.Float → String → p.Float → String → Message

  pub record Alert : Type 0 where
    pub rule_name : String
    pub description : String
    pub severity : String
    pub message : Message
    pub timestamp : ℕ
    pub count : ℕ
    pub threshold : ℤ
    pub window : String
    pub triggering_entry : Option (LogEntry p)
    pub notify : List String
    pub labels : List (String × String)

  -- `alerts` is what waits in the channel, `capacity` the size of its buffer.
  pub record Engine : Type 0 where
    pub rules : List (Rule p)
    pub windows : WindowManager
    pub cooldowns : Cooldowns
    pub alerts : List Alert
    pub capacity : ℕ
    pub closed : Bool
    pub stats : EngineStats

  unfoldable pub new_engine : List (Rule p) → ℕ → Engine
  new_engine rules capacity = record {
    rules = rules;
    windows = new_window_manager;
    cooldowns = [];
    alerts = [];
    capacity = capacity;
    closed = false;
    stats = record {
      entries_evaluated = 0;
      pattern_matches = 0;
      threshold_triggers = 0;
      expr_triggers = 0;
      alerts_suppressed = 0;
      alerts_dropped = 0;
    };
  }

  -- `if rule.GetCooldownDuration() > 0 { e.cooldown.SetCooldown(...) }`
  abbrev pub start_cooldown : Cooldowns → Rule p → ℕ → Cooldowns
  start_cooldown m r now =
      if ltb 0 r.cooldown_duration then set_cooldown m r.name r.cooldown_duration now else m

  abbrev pub suppress : Engine → Engine
  suppress e = record e {
    stats = record e.stats { alerts_suppressed = e.stats.alerts_suppressed + 1 };
  }

  -- What all three kinds of rules share once they trigger: nothing during the cooldown, else the
  -- cooldown starts, `settle` follows and the alert is raised.
  abbrev pub trigger : Engine → Rule p → ℕ → (Engine → Engine) → Alert → Engine × Option Alert
  trigger e r now settle alert =
      if is_on_cooldown e.cooldowns r.name now
      then (suppress e, none)
      else (settle (record e { cooldowns = start_cooldown e.cooldowns r now }), some alert)

  abbrev pub reset_window : Rule p → Engine → Engine
  reset_window r e = record e { windows = reset_rule e.windows r.name }

  unfoldable pub evaluate_pattern : Engine → Rule p → LogEntry p → ℕ → Engine × Option Alert
  evaluate_pattern e r entry now =
      if match_pattern p r entry
      then trigger
          (record e { stats = record e.stats { pattern_matches = e.stats.pattern_matches + 1 } }) r
          now (λ e'. e')
          (record {
            rule_name = r.name;
            description = r.description;
            severity = r.severity;
            message = pattern_match r.condition.pattern;
            timestamp = now;
            count = 0;
            threshold = pos 0;
            window = "";
            triggering_entry = some entry;
            notify = r.notify;
            labels = r.labels;
          })
      else (e, none)

  -- The event is counted: the window of the rule and how many events are in it.
  abbrev pub counted : Engine → Rule p → ℕ → ℕ → ℕ → WindowManager × ℕ
  counted e r window_duration now clock =
      count (add_event_at e.windows r.name window_duration now) r.name clock

  -- Below the count.
  abbrev pub threshold_reached : Engine → Rule p → ℕ → ℕ → Engine × Option Alert
  threshold_reached e r now n =
      if count_below n r.condition.threshold
      then (e, none)
      else trigger
          (record e {
            stats = record e.stats { threshold_triggers = e.stats.threshold_triggers + 1 };
          })
          r now (reset_window r)
          (record {
            rule_name = r.name;
            description = r.description;
            severity = r.severity;
            message = threshold_exceeded n r.condition.window r.condition.threshold;
            timestamp = now;
            count = n;
            threshold = r.condition.threshold;
            window = r.condition.window;
            triggering_entry = none;
            notify = r.notify;
            labels = r.labels;
          })

  unfoldable pub evaluate_threshold : Engine → Rule p → LogEntry p → ℕ → ℕ → Engine × Option Alert
  evaluate_threshold e r entry now clock =
      if match_threshold_condition p r entry
      then (let c = counted e r r.condition.window_duration now clock in
          threshold_reached (record e { windows = c.0 }) r now c.1)
      else (e, none)
