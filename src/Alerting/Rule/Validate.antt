-- ===== src/Alerting/Rule/Validate.antt =====
-- internal/alerting/rule.go, `Rule.Validate`: the checks in their order, each of which fills in a
-- part of the rule. A rule that is refused is given up by the callers, so the parts that were filled
-- in before are not returned.
use blazelog.Base.{
  ℕ, ◌⊎◌, inl, inr, String, Bool, true, false, Option, none, some, ◌||◌, if◌then◌else◌, ◌==◌,
}
use Prim.Native.String.{◌++◌ as str_append}
use blazelog.Base.Int.{ℤ, pos, negsuc}
use blazelog.Base.Dict.{str_eq}
use blazelog.Alerting.Rule.{Platform, operator, AggregationConfig, Condition, Rule}

pub data RuleError : Type 0 where
  name_required type_required invalid_type : RuleError
  pattern_required invalid_pattern : RuleError
  threshold_not_positive window_required invalid_window invalid_operator : RuleError
  expression_required invalid_expression aggregation_required invalid_function : RuleError
  invalid_cooldown : RuleError

-- `x <= 0`
abbrev pub not_positive : ℤ → Bool
not_positive (pos n) = n == 0
not_positive (negsuc n) = true

-- `if s == "" { s = default }`
abbrev pub or_else : String → String → String
or_else s default = if str_eq s "" then default else s

abbrev pub known_operator : String → Bool
known_operator s = elim (operator s) [ none ↦ false | some _ ↦ true ]

module _ (p : Platform) where
  pub data Checked : Type 0 where
    rejected : RuleError → Checked
    accepted : Rule p → Checked

  abbrev pub and_then : Checked → (Rule p → Checked) → Checked
  and_then (rejected e) next = rejected e
  and_then (accepted r) next = next r

  -- The pattern as it is compiled.
  abbrev pub flagged : Condition p → String
  flagged c = if c.case_sensitive then c.pattern else str_append "(?i)" c.pattern

  abbrev pub with_pattern : Rule p → Option p.Regex → Checked
  with_pattern r none = rejected invalid_pattern
  with_pattern r (some regex) =
      accepted (record r { condition = record r.condition { compiled_pattern = some regex } })

  unfoldable pub check_pattern : Rule p → Checked
  check_pattern r =
      if str_eq r.type "pattern"
      then if str_eq r.condition.pattern ""
        then rejected pattern_required
        else with_pattern r (p.compile_regex (flagged r.condition))
      else accepted r

  abbrev pub with_window : Rule p → Option ℕ → Checked
  with_window r none = rejected invalid_window
  with_window r (some d) =
      let op = or_else r.condition.operator "==" in
      if known_operator op
      then accepted
          (record r { condition = record r.condition { window_duration = d; operator = op } })
      else rejected invalid_operator

  unfoldable pub check_threshold : Rule p → Checked
  check_threshold r =
      if str_eq r.type "threshold"
      then if not_positive r.condition.threshold
        then rejected threshold_not_positive
        else if str_eq r.condition.window ""
        then rejected window_required
        else with_window r (p.parse_duration r.condition.window)
      else accepted r

  abbrev pub with_aggregation_window :
      AggregationConfig p → Option ℕ → RuleError ⊎ AggregationConfig p
  with_aggregation_window agg none = inl invalid_window
  with_aggregation_window agg (some d) = inr (record agg { window_duration = d })

  -- The checks on the aggregation.
  unfoldable pub check_aggregation : AggregationConfig p → RuleError ⊎ AggregationConfig p
  check_aggregation agg =
      let op = or_else agg.operator ">=" in
      if str_eq agg.function "count" || str_eq agg.function "rate"
      then if p.less_equal agg.threshold (p.of_int (pos 0))
        then inl threshold_not_positive
        else if known_operator op
        then if str_eq agg.window ""
          then inl window_required
          else with_aggregation_window (record agg { operator = op }) (p.parse_duration agg.window)
        else inl invalid_operator
      else inl invalid_function

  abbrev pub with_checked : Rule p → p.Program → RuleError ⊎ AggregationConfig p → Checked
  with_checked r program (inl e) = rejected e
  with_checked r program (inr agg) = accepted (record r {
    condition = record r.condition { compiled_expr = some program; aggregation = some agg };
  })

  abbrev pub with_program : Rule p → Option p.Program → Checked
  with_program r none = rejected invalid_expression
  with_program r (some program) = elim r.condition.aggregation [
    | none ↦ rejected aggregation_required
    | some agg ↦ with_checked r program (check_aggregation agg)
  ]

  unfoldable pub check_expr : Rule p → Checked
  unfolding check_aggregation
  check_expr r =
      if str_eq r.type "expr"
      then if str_eq r.condition.expression ""
        then rejected expression_required
        else with_program r (p.compile_expr r.condition.expression)
      else accepted r

  abbrev pub with_cooldown : Rule p → Option ℕ → Checked
  with_cooldown r none = rejected invalid_cooldown
  with_cooldown r (some d) = accepted (record r { cooldown_duration = d })

  unfoldable pub check_cooldown : Rule p → Checked
  check_cooldown r =
      if str_eq r.cooldown "" then accepted r else with_cooldown r (p.parse_duration r.cooldown)

  abbrev pub default_severity : Rule p → Rule p
  default_severity r = record r { severity = or_else r.severity "medium" }

  abbrev pub known_type : String → Bool
  known_type t = str_eq t "pattern" || str_eq t "threshold" || str_eq t "expr"

  unfoldable pub validate : Rule p → Checked
  unfolding check_pattern check_threshold check_expr check_cooldown
  validate r =
      if str_eq r.name ""
      then rejected name_required
      else if str_eq r.type ""
      then rejected type_required
      else if known_type r.type
      then and_then (check_pattern r) (λ r1. and_then (check_threshold r1) (λ r2.
        and_then (check_expr r2)
          (λ r3. and_then (check_cooldown r3) (λ r4. accepted (default_severity r4)))))
      else rejected invalid_type
