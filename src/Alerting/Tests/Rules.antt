-- ===== src/Alerting/Tests/Rules.antt =====
-- Runs of the alert engine of internal/alerting/engine.go, with a small platform.
use blazelog.Base.{
  ℕ, ◌+◌, ◌-◌, ◌/◌, ◌≤◌, ◌≡◌, refl, String, Bool, true, false, none, some, [], ◌∷◌, length, ltb,
  leb, ◌==◌, if◌then◌else◌, arith, inr,
}
use blazelog.Base.Int.{ℤ, pos, negsuc}
use blazelog.Base.Dict.{str_eq, lookup, insert}
use blazelog.Alerting.Rule.{
  Platform, nil, boolean, LogEntry, Rule, is_enabled, labels_match, matches_labels,
  matches_log_type,
}
use blazelog.Alerting.Rule.Validate.{
  accepted, validate, check_pattern, check_threshold, check_expr, check_cooldown,
}
use blazelog.Alerting.Matcher.{match_pattern, match_threshold_condition}
use blazelog.Alerting.Cooldown.{is_on_cooldown, set_cooldown}
use blazelog.Alerting.Window.{new_sliding_window, add_at, count_at}
use blazelog.Alerting.Engine.{
  Engine, Alert, threshold_exceeded, count_below, new_engine, evaluate_pattern, evaluate_threshold,
}
use blazelog.Alerting.Engine.Evaluate.{evaluate_at, evaluate_each, evaluate_rule}
use blazelog.Alerting.Engine.Tally.{arrives, received, run, start, run_tally}
use blazelog.Alerting.Engine.Spacing.{raises, Cooled, evaluate_all, evaluate_all_silent}
use blazelog.Alerting.Engine.Thresholds.{evaluate_threshold_unreachable, evaluate_threshold_raised}
use blazelog.Alerting.Manager.{add_event_at, count}
use blazelog.Alerting.Manager.Caps.{Capped}

abbrev nat_of : ℤ → ℕ
nat_of (pos n) = n
nat_of (negsuc n) = 0

-- A pattern matches the equal message; floats are natural numbers.
abbrev plain : Platform
plain = record {
  Regex = String;
  Program = Bool;
  Float = ℕ;
  Opaque = Unit {0};
  compile_regex = some;
  match_string = str_eq;
  compile_expr = λ s. some (str_eq s "true");
  run_program = λ program env. some (boolean program);
  parse_duration = λ s. if str_eq s "1m" then some 60 else none;
  of_int = nat_of;
  to_int = pos;
  minutes = λ d. d / 60;
  divide = λ a b. a / b;
  subtract = λ a b. a - b;
  negate = λ a. a;
  less = ltb;
  less_equal = leb;
  equal = λ a b. a == b;
  epsilon = 1;
  parse_float = λ s. none;
  parse_int = λ s. none;
  string_less = λ a b. false;
  to_lower = λ s. s;
  print = λ v. "";
}

abbrev timeout : LogEntry plain
timeout = record {
  level = "error";
  message = "timeout";
  source = "web";
  type = "nginx";
  raw = "";
  file_path = "";
  fields = [];
  labels = [];
}

abbrev rule : String → ℤ → Rule plain
rule type threshold = record {
  name = "timeouts";
  description = "";
  type = type;
  condition = record {
    pattern = "timeout";
    case_sensitive = true;
    field = "";
    value = nil;
    operator = "==";
    threshold = threshold;
    window = "1m";
    log_type = "nginx";
    expression = "";
    aggregation = none;
    compiled_pattern = some "timeout";
    compiled_expr = none;
    window_duration = 60;
  };
  severity = "high";
  notify = [];
  cooldown = "1m";
  labels = [];
  enabled = none;
  cooldown_duration = 60;
}

abbrev engine : Engine plain
engine = new_engine plain (rule "pattern" (pos 0) ∷ []) 2

abbrev clock : Rule plain → ℕ
clock r = 100

run_tally_example :
    let s =
      run plain
        (start plain (rule "pattern" (pos 0) ∷ []) 1)
        (arrives timeout 100 clock ∷ arrives timeout 200 clock ∷ received ∷ []) in
    let stats = s.engine.stats in
    (stats.pattern_matches + stats.threshold_triggers + stats.expr_triggers
      ≡ stats.alerts_suppressed + s.raised_alerts)
    × (length s.engine.alerts + s.taken + stats.alerts_dropped ≡ s.raised_alerts)
    × (length s.engine.alerts ≤ 1)
    × (stats.entries_evaluated ≡ s.entries)
run_tally_example =
    run_tally plain (rule "pattern" (pos 0) ∷ []) 1
      (arrives timeout 100 clock ∷ arrives timeout 200 clock ∷ received ∷ [])

engine_raises : raises plain "timeouts" (evaluate_at plain engine timeout 100 clock).1 ≡ true
unfolding new_engine evaluate_at evaluate_each evaluate_rule evaluate_pattern is_enabled
    match_pattern matches_labels labels_match matches_log_type is_on_cooldown set_cooldown lookup
engine_raises = refl

engine-Cooled : Cooled plain "timeouts" 60 engine.rules
unfolding new_engine
engine-Cooled = (inr (omega arith), tt)

evaluate_all_silent_example :
    raises plain "timeouts"
      (evaluate_all plain
        (evaluate_at plain engine timeout 100 clock).0
        ((timeout, 120, clock) ∷ (timeout, 159, clock) ∷ [])).1
    ≡ false
evaluate_all_silent_example =
    evaluate_all_silent plain engine timeout 100 60 clock "timeouts"
      ((timeout, 120, clock) ∷ (timeout, 159, clock) ∷ []) (omega arith) engine-Cooled engine_raises
      (omega arith, (omega arith, tt))

abbrev counting : ℤ → Engine plain
counting t = record engine {
  rules = rule "threshold" t ∷ [];
  windows = record { windows = []; total_events = 0 };
}

evaluate_threshold_unreachable_example :
    ((evaluate_threshold plain
        (counting (pos 10_001))
        (rule "threshold" (pos 10_001))
        timeout
        100
        100).1
      ≡ none)
    × Capped
        (evaluate_threshold plain
          (counting (pos 10_001))
          (rule "threshold" (pos 10_001))
          timeout
          100
          100).0.windows.windows
evaluate_threshold_unreachable_example =
    evaluate_threshold_unreachable plain (counting (pos 10_001)) (rule "threshold" (pos 10_001))
      timeout 100 100 10_001 refl (omega arith) tt

-- `Validate` has nothing against that threshold.
large_threshold_accepted :
    validate plain (rule "threshold" (pos 10_001)) ≡ accepted (rule "threshold" (pos 10_001))
unfolding validate check_pattern check_threshold check_expr check_cooldown
large_threshold_accepted = refl

abbrev first_alert : Alert plain
first_alert = record {
  rule_name = "timeouts";
  description = "";
  severity = "high";
  message = threshold_exceeded 1 "1m" (pos 1);
  timestamp = 100;
  count = 1;
  threshold = pos 1;
  window = "1m";
  triggering_entry = none;
  notify = [];
  labels = [];
}

first_alert_raised :
    (evaluate_threshold plain (counting (pos 1)) (rule "threshold" (pos 1)) timeout 100 100).1
    ≡ some first_alert
unfolding evaluate_threshold match_threshold_condition matches_labels labels_match matches_log_type
    is_on_cooldown lookup add_event_at count add_at new_sliding_window insert count_at new_engine
first_alert_raised = refl

evaluate_threshold_raised_example :
    (match_threshold_condition plain (rule "threshold" (pos 1)) timeout ≡ true)
    × (1 ≡ (count (add_event_at (counting (pos 1)).windows "timeouts" 60 100) "timeouts" 100).1)
    × (count_below 1 (pos 1) ≡ false)
    × ((count
          (evaluate_threshold plain
            (counting (pos 1))
            (rule "threshold" (pos 1))
            timeout
            100
            100).0.windows
          "timeouts"
          130).1
        ≡ 0)
evaluate_threshold_raised_example =
    evaluate_threshold_raised plain (counting (pos 1)) (rule "threshold" (pos 1)) timeout 100 100
      130 first_alert first_alert_raised
