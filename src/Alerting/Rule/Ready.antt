-- ===== src/Alerting/Rule/Ready.antt =====
-- internal/alerting/rule.go: what holds of a rule that `Validate` accepted.
use blazelog.Base.{
  ◌≡◌, ◌⊎◌, inl, inr, refl, subst, String, true, false, some, ◌||◌, Bool-cases, Option-cases,
}
use blazelog.Base.Int.{pos}
use blazelog.Base.Dict.{str_eq}
use blazelog.Alerting.Rule.{Platform, AggregationConfig, Rule}
use blazelog.Alerting.Rule.Validate.{
  Checked, RuleError, threshold_not_positive, invalid_operator, window_required, invalid_window,
  invalid_function, rejected, accepted, and_then, flagged, check_pattern, or_else, not_positive,
  known_operator, check_threshold, check_aggregation, check_expr, check_cooldown, default_severity,
  known_type, validate,
}

or_else_nonempty : (s d : String) → str_eq d "" ≡ false → str_eq (or_else s d) "" ≡ false
or_else_nonempty s d h = elim (Bool-cases (str_eq s "")) [
  | inl empty ↦ rw empty h
  | inr given ↦ rw given given
]

module _ (p : Platform) where
  -- The parts that a rule of each type is evaluated with.
  abbrev pub PatternReady : Rule p → Type 0
  PatternReady r =
      (str_eq r.type "pattern" ≡ false)
      ⊎ ((regex : p.Regex) × (p.compile_regex (flagged p r.condition) ≡ some regex)
          × (r.condition.compiled_pattern ≡ some regex))

  abbrev pub ThresholdReady : Rule p → Type 0
  ThresholdReady r =
      (str_eq r.type "threshold" ≡ false)
      ⊎ ((not_positive r.condition.threshold ≡ false)
          × (p.parse_duration r.condition.window ≡ some r.condition.window_duration)
          × (known_operator r.condition.operator ≡ true))

  abbrev pub AggregationReady : AggregationConfig p → Type 0
  AggregationReady agg =
      ((str_eq agg.function "count" || str_eq agg.function "rate") ≡ true)
      × (p.less_equal agg.threshold (p.of_int (pos 0)) ≡ false)
      × (known_operator agg.operator ≡ true)
      × (p.parse_duration agg.window ≡ some agg.window_duration)

  abbrev pub ExprReady : Rule p → Type 0
  ExprReady r =
      (str_eq r.type "expr" ≡ false)
      ⊎ ((program : p.Program) × (agg : AggregationConfig p) × (p.compile_expr
              r.condition.expression
            ≡ some program)
          × (r.condition.compiled_expr ≡ some program)
          × (r.condition.aggregation ≡ some agg)
          × AggregationReady agg)

  abbrev pub CooldownReady : Rule p → Type 0
  CooldownReady r =
      (str_eq r.cooldown "" ≡ true) ⊎ (p.parse_duration r.cooldown ≡ some r.cooldown_duration)

  -- What holds of the rule where it was accepted.
  abbrev pub WhenAccepted : (Rule p → Type 0) → Checked p → Type 0
  WhenAccepted holds (rejected e) = Unit {0}
  WhenAccepted holds (accepted r) = holds r

  then-WhenAccepted :
      (first then_ : Rule p → Type 0) (c : Checked p) (next : Rule p → Checked p)
      → WhenAccepted first c
      → ((r : Rule p) → first r → WhenAccepted then_ (next r))
      → WhenAccepted then_ (and_then p c next)
  then-WhenAccepted first then_ (rejected e) next h f = tt
  then-WhenAccepted first then_ (accepted r) next h f = f r h

  -- With what is known before the checks of the parts, which leave the name and the type alone.
  abbrev First : Rule p → Type 0
  First r = ((str_eq r.name "" ≡ false) × (known_type p r.type ≡ true)) × PatternReady r

  check_pattern-First :
      (r : Rule p)
      → (str_eq r.name "" ≡ false) × (known_type p r.type ≡ true)
      → WhenAccepted First (check_pattern p r)
  unfolding check_pattern
  check_pattern-First r named = elim (Bool-cases (str_eq r.type "pattern")) [
    | inr other ↦ rw (check_pattern, other) (named, inl other)
    | inl is ↦
        rw (check_pattern, is)
          (elim (Bool-cases (str_eq r.condition.pattern "")) [
            | inl empty ↦ rw empty tt
            | inr given ↦ rw given (elim (Option-cases (p.compile_regex (flagged p r.condition))) [
              | inl bad ↦ rw bad tt
              | inr (regex, good) ↦ rw good (named, inr (regex, good, refl))
            ])
          ])
  ]

  check_threshold-ThresholdReady :
      (r : Rule p)
      → First r
      → WhenAccepted (λ r'. First r' × ThresholdReady r') (check_threshold p r)
  unfolding check_threshold
  check_threshold-ThresholdReady r ready = elim (Bool-cases (str_eq r.type "threshold")) [
    | inr other ↦ rw (check_threshold, other) (ready, inl other)
    | inl is ↦
        rw (check_threshold, is)
          (elim (Bool-cases (not_positive r.condition.threshold)) [
            | inl low ↦ rw low tt
            | inr above ↦ rw above (elim (Bool-cases (str_eq r.condition.window "")) [
              | inl empty ↦ rw empty tt
              | inr given ↦ rw given (elim (Option-cases (p.parse_duration r.condition.window)) [
                | inl bad ↦ rw bad tt
                | inr (d, good) ↦
                    rw good
                      (elim (Bool-cases (known_operator (or_else r.condition.operator "=="))) [
                        | inr unknown ↦ rw unknown tt
                        | inl known ↦ rw known (ready, inr (above, good, known))
                      ])
              ])
            ])
          ])
  ]

  aggregation-cases :
      (agg : AggregationConfig p)
      → ((err : RuleError) × (check_aggregation p agg ≡ inl err))
        ⊎ ((agg' : AggregationConfig p) × (check_aggregation p agg ≡ inr agg')
            × AggregationReady agg')
  unfolding check_aggregation
  aggregation-cases agg =
      let op = or_else agg.operator ">=" in
      elim (Bool-cases (str_eq agg.function "count" || str_eq agg.function "rate")) [
        | inr unknown ↦ inl (invalid_function, rw (check_aggregation, unknown) refl)
        | inl is ↦ elim (Bool-cases (p.less_equal agg.threshold (p.of_int (pos 0)))) [
          | inl low ↦ inl (threshold_not_positive, rw (check_aggregation, is, low) refl)
          | inr above ↦ elim (Bool-cases (known_operator op)) [
            | inr odd ↦ inl (invalid_operator, rw (check_aggregation, is, above, odd) refl)
            | inl known ↦ elim (Bool-cases (str_eq agg.window "")) [
              | inl empty ↦
                  inl (window_required, rw (check_aggregation, is, above, known, empty) refl)
              | inr given ↦ elim (Option-cases (p.parse_duration agg.window)) [
                | inl bad ↦
                    inl (invalid_window, rw (check_aggregation, is, above, known, given, bad) refl)
                | inr (d, good) ↦ inr (
                  record agg { operator = op; window_duration = d },
                  rw (check_aggregation, is, above, known, given, good) refl,
                  (is, above, known, good),
                )
              ]
            ]
          ]
        ]
      ]

  check_expr-ExprReady :
      (r : Rule p)
      → First r × ThresholdReady r
      → WhenAccepted (λ r'. First r' × (ThresholdReady r' × ExprReady r')) (check_expr p r)
  unfolding check_expr
  check_expr-ExprReady r ready = elim (Bool-cases (str_eq r.type "expr")) [
    | inr other ↦ rw (check_expr, other) (ready.0, (ready.1, inl other))
    | inl is ↦
        rw (check_expr, is)
          (elim (Bool-cases (str_eq r.condition.expression "")) [
            | inl empty ↦ rw empty tt
            | inr given ↦ rw given (elim (Option-cases (p.compile_expr r.condition.expression)) [
              | inl bad ↦ rw bad tt
              | inr (program, good) ↦ rw good (elim (Option-cases r.condition.aggregation) [
                | inl missing ↦ rw missing tt
                | inr (agg, found) ↦ rw found (elim (aggregation-cases agg) [
                  | inl (err, e) ↦ rw e tt
                  | inr (agg', e, well) ↦
                      rw e (ready.0, (ready.1, inr (program, agg', good, refl, refl, well)))
                ])
              ])
            ])
          ])
  ]

  -- A rule that can be evaluated: its pattern, window or expression is compiled and its cooldown
  -- parsed, whichever its type asks for.
  pub record Ready (r : Rule p) : Type 0 where
    pub named : str_eq r.name "" ≡ false
    pub typed : known_type p r.type ≡ true
    pub pattern : PatternReady r
    pub threshold : ThresholdReady r
    pub expr : ExprReady r
    pub cooldown : CooldownReady r
    pub severity : str_eq r.severity "" ≡ false

  abbrev Parts : Rule p → Type 0
  Parts r = (First r × (ThresholdReady r × ExprReady r)) × CooldownReady r

  check_cooldown-Parts :
      (r : Rule p)
      → First r × (ThresholdReady r × ExprReady r)
      → WhenAccepted Parts (check_cooldown p r)
  unfolding check_cooldown
  check_cooldown-Parts r ready = elim (Bool-cases (str_eq r.cooldown "")) [
    | inl empty ↦ rw (check_cooldown, empty) (ready, inl empty)
    | inr given ↦
        rw (check_cooldown, given)
          (elim (Option-cases (p.parse_duration r.cooldown)) [
            | inl bad ↦ rw bad tt
            | inr (d, good) ↦ rw good (ready, inr good)
          ])
  ]

  default_severity-Ready :
      (r : Rule p) → Parts r → WhenAccepted Ready (accepted (default_severity p r))
  default_severity-Ready r parts = record {
    named = parts.0.0.0.0;
    typed = parts.0.0.0.1;
    pattern = parts.0.0.1;
    threshold = parts.0.1.0;
    expr = parts.0.1.1;
    cooldown = parts.1;
    severity = or_else_nonempty r.severity "medium" refl;
  }

  validate-WhenAccepted : (r : Rule p) → WhenAccepted Ready (validate p r)
  unfolding validate
  validate-WhenAccepted r = elim (Bool-cases (str_eq r.name "")) [
    | inl empty ↦ rw (validate, empty) tt
    | inr named ↦
        rw (validate, named)
          (elim (Bool-cases (str_eq r.type "")) [
            | inl empty ↦ rw empty tt
            | inr given ↦ rw given (elim (Bool-cases (known_type p r.type)) [
              | inr unknown ↦ rw unknown tt
              | inl known ↦ rw known (
                  then-WhenAccepted First Ready (check_pattern p r) _
                    (check_pattern-First r (named, known))
                    (λ r1 h1.
                      then-WhenAccepted _ Ready (check_threshold p r1) _
                        (check_threshold-ThresholdReady r1 h1)
                        (λ r2 h2.
                          then-WhenAccepted _ Ready (check_expr p r2) _ (check_expr-ExprReady r2 h2)
                            (λ r3 h3.
                              then-WhenAccepted Parts Ready (check_cooldown p r3) _
                                (check_cooldown-Parts r3 h3) default_severity-Ready))))
            ])
          ])
  ]

  -- A rule that `Validate` accepts can be evaluated: it has a name, a known type and a severity; a
  -- pattern rule has its pattern compiled, a threshold rule a positive threshold, its window parsed
  -- and a known operator, an expression rule its expression compiled and an aggregation with a known
  -- function, a positive threshold, a known operator and its window parsed; its cooldown is parsed.
  validate-Ready : (r r' : Rule p) → validate p r ≡ accepted r' → Ready r'
  validate-Ready r r' e = subst (WhenAccepted Ready) e (validate-WhenAccepted r)
