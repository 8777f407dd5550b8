-- ===== src/Alerting/Engine/RuleSet.antt =====
-- engine.go: `RemoveRule` and `ReloadRules`.
use blazelog.Base.{
  ℕ, ◌≡◌, ◌⊎◌, inl, inr, refl, ap, subst, String, Bool, true, false, Option, none, some, List, [],
  ◌∷◌, ◌++◌, Bool-cases, Option-cases,
}
use blazelog.Base.Dict.{lookup, remove, str_eq, str_eq_refl, lookup-remove}
use blazelog.Alerting.Rule.{Platform, Rule}
use blazelog.Alerting.Rule.Validate.{RuleError, Checked, rejected, accepted, validate}
use blazelog.Alerting.Cooldown.{is_on_cooldown, clear_cooldown, clear_all_cooldowns, before}
use blazelog.Alerting.Manager.{WindowManager, count, delete_rule, delete_all}
use blazelog.Alerting.Engine.{Engine}
use blazelog.Alerting.Engine.Evaluate.{
  without_rule, remove_rule, validate_all, reload_checked, reload_rules,
}

module _ (p : Platform) where
  -- The rules, each as it is validated.
  abbrev pub Validated : List (Rule p) → List (Rule p) → Type 0
  Validated [] [] = Unit {0}
  Validated [] (r' ∷ rules') = ⊥
  Validated (r ∷ rules) [] = ⊥
  Validated (r ∷ rules) (r' ∷ rules') = (validate p r ≡ accepted r') × Validated rules rules'

  -- A list of checks: the first error in order of the rules, or all of them.
  abbrev AllChecked : List (Rule p) → RuleError ⊎ List (Rule p) → Type 0
  AllChecked rules (inl err) =
      (r : Rule p) × (before after : List (Rule p)) × (rules ≡ before ++ (r ∷ after))
      × (validate p r ≡ rejected err)
  AllChecked rules (inr rules') = Validated rules rules'

  Checked-cases :
      (c : Checked p) → ((e : RuleError) × (c ≡ rejected e)) ⊎ ((r : Rule p) × (c ≡ accepted r))
  Checked-cases (rejected e) = inl (e, refl)
  Checked-cases (accepted r) = inr (r, refl)

  more-AllChecked :
      (r r' : Rule p) (rules : List (Rule p)) (res : RuleError ⊎ List (Rule p))
      → validate p r ≡ accepted r'
      → AllChecked rules res
      → AllChecked (r ∷ rules) (elim res [ inl err ↦ inl err | inr more ↦ inr (r' ∷ more) ])
  more-AllChecked r r' rules (inl err) e (bad, before, after, split, why) =
      (bad, r ∷ before, after, ap (◌∷◌ r) split, why)
  more-AllChecked r r' rules (inr rules') e v = (e, v)

  validate_all_lem : (rules : List (Rule p)) → AllChecked rules (validate_all p rules)
  unfolding validate_all
  validate_all_lem [] = tt
  validate_all_lem (r ∷ rules) = elim (Checked-cases (validate p r)) [
    | inl (err, e) ↦ rw (validate_all, e) (r, [], rules, refl, e)
    | inr (r', e) ↦
        rw (validate_all, e)
          (more-AllChecked r r' rules (validate_all p rules) e (validate_all_lem rules))
  ]

  -- What a reload comes to.
  abbrev pub Reloaded : Engine p → List (Rule p) → Engine p × Option RuleError → Type 0
  Reloaded e rules res =
      ((err : RuleError) × (r : Rule p) × (before after : List (Rule p)) × (rules
          ≡ before ++ (r ∷ after))
        × (validate p r ≡ rejected err)
        × (res ≡ (e, some err)))
      ⊎ ((rules' : List (Rule p)) × Validated rules rules'
          × (res ≡ (
            record e {
              rules = rules';
              windows = record { windows = []; total_events = 0 };
              cooldowns = [];
            },
            none,
          )))

  reload_checked_lem :
      (e : Engine p) (rules : List (Rule p)) (res : RuleError ⊎ List (Rule p))
      → AllChecked rules res
      → Reloaded e rules (reload_checked p e res)
  unfolding delete_all clear_all_cooldowns
  reload_checked_lem e rules (inl err) (r, before, after, split, why) =
      inl (err, r, before, after, split, why, refl)
  reload_checked_lem e rules (inr rules') v = inr (rules', v, refl)

  -- `ReloadRules` is all or nothing: either some rule was refused, its error is returned and the
  -- engine is unchanged, or every rule was accepted, and the engine has the validated rules in their
  -- order, no windows and no cooldowns.
  reload_rules_lem :
      (e : Engine p) (rules : List (Rule p)) → Reloaded e rules (reload_rules p e rules)
  unfolding reload_rules
  reload_rules_lem e rules =
      reload_checked_lem e rules (validate_all p rules) (validate_all_lem rules)

  -- No rule has that name.
  abbrev pub Absent : String → List (Rule p) → Type 0
  Absent name [] = Unit {0}
  Absent name (r ∷ rules) = (str_eq r.name name ≡ false) × Absent name rules

  abbrev Split : String → List (Rule p) → Option (List (Rule p)) → Type 0
  Split name rules none = Absent name rules
  Split name rules (some left) =
      (r : Rule p) × (before after : List (Rule p)) × (rules ≡ before ++ (r ∷ after))
      × (left ≡ before ++ after)
      × (str_eq r.name name ≡ true)
      × Absent name before

  more-Split :
      (name : String) (r : Rule p) (rules : List (Rule p)) (found : Option (List (Rule p)))
      → str_eq r.name name ≡ false
      → Split name rules found
      → Split name (r ∷ rules) (elim found [ none ↦ none | some left ↦ some (r ∷ left) ])
  more-Split name r rules none differs v = (differs, v)
  more-Split name r rules (some left) differs (x, before, after, whole, rest, same, absent) =
      (x, r ∷ before, after, ap (◌∷◌ r) whole, ap (◌∷◌ r) rest, same, (differs, absent))

  without_rule_lem :
      (name : String) (rules : List (Rule p)) → Split name rules (without_rule p name rules)
  unfolding without_rule
  without_rule_lem name [] = tt
  without_rule_lem name (r ∷ rules) = elim (Bool-cases (str_eq r.name name)) [
    | inl same ↦ rw (without_rule, same) (r, [], rules, refl, refl, same, tt)
    | inr differs ↦
        rw (without_rule, differs)
          (more-Split name r rules (without_rule p name rules) differs
            (without_rule_lem name rules))
  ]

  count-delete_rule :
      (wm : WindowManager) (name : String) (now : ℕ) → (count (delete_rule wm name) name now).1 ≡ 0
  unfolding count delete_rule
  count-delete_rule wm name now = elim (Option-cases (lookup name wm.windows)) [
    | inl missing ↦ rw (delete_rule, missing, count, missing) refl
    | inr (w, found) ↦
        let gone : lookup name (remove name wm.windows) ≡ none =
          rw (lookup-remove name name wm.windows, str_eq_refl name) refl in
        rw (delete_rule, found, count, gone) refl
  ]

  delete_rule-other :
      (wm : WindowManager) (name other : String)
      → str_eq name other ≡ false
      → lookup other (delete_rule wm name).windows ≡ lookup other wm.windows
  unfolding delete_rule
  delete_rule-other wm name other differs = elim (Option-cases (lookup name wm.windows)) [
    | inl missing ↦ rw (delete_rule, missing) refl
    | inr (w, found) ↦ rw (delete_rule, found, lookup-remove name other wm.windows, differs) refl
  ]

  -- After a removal.
  pub record Removed (e e' : Engine p) (name : String) : Type 0 where
    pub removed : Rule p
    pub before : List (Rule p)
    pub after : List (Rule p)
    pub split : e.rules ≡ before ++ (removed ∷ after)
    pub left : e'.rules ≡ before ++ after
    pub named : str_eq removed.name name ≡ true
    pub first : Absent name before
    pub no_events : (now : ℕ) → (count e'.windows name now).1 ≡ 0
    pub no_cooldown : (now : ℕ) → is_on_cooldown e'.cooldowns name now ≡ false
    pub other_windows :
        (other : String)
        → (str_eq name other ≡ true)
          ⊎ (lookup other e'.windows.windows ≡ lookup other e.windows.windows)
    pub other_cooldowns :
        (other : String)
        → (str_eq name other ≡ true) ⊎ (lookup other e'.cooldowns ≡ lookup other e.cooldowns)

  abbrev pub Removal : Engine p → String → Engine p × Bool → Type 0
  Removal e name res =
      (Absent name e.rules × (res ≡ (e, false))) ⊎ ((res.1 ≡ true) × Removed e res.0 name)

  remove_found :
      (e : Engine p) (name : String) (rules : List (Rule p))
      → Split name e.rules (some rules)
      → Removed e
          (record e {
            rules = rules;
            windows = delete_rule e.windows name;
            cooldowns = clear_cooldown e.cooldowns name;
          })
          name
  unfolding clear_cooldown is_on_cooldown
  remove_found e name rules (r, before, after, whole, rest, same, absent) = record {
    removed = r;
    before = before;
    after = after;
    split = whole;
    left = rest;
    named = same;
    first = absent;
    no_events = count-delete_rule e.windows name;
    no_cooldown = λ now. rw (lookup-remove name name e.cooldowns, str_eq_refl name) refl;
    other_windows = λ other. elim (Bool-cases (str_eq name other)) [
      | inl is ↦ inl is
      | inr differs ↦ inr (delete_rule-other e.windows name other differs)
    ];
    other_cooldowns = λ other. elim (Bool-cases (str_eq name other)) [
      | inl is ↦ inl is
      | inr differs ↦ inr (rw (lookup-remove name other e.cooldowns, differs) refl)
    ];
  }

  -- `RemoveRule` returns false and changes nothing where no rule has the name. Else it takes away
  -- the first rule of that name, its window and its cooldown; the order of the other rules and their
  -- windows and cooldowns stay.
  remove_rule_lem : (e : Engine p) (name : String) → Removal e name (remove_rule p e name)
  unfolding remove_rule
  remove_rule_lem e name = elim (Option-cases (without_rule p name e.rules)) [
    | inl missing ↦
        rw (remove_rule, missing)
          (inl (subst (Split name e.rules) missing (without_rule_lem name e.rules), refl))
    | inr (rules, found) ↦
        rw (remove_rule, found)
          (inr (
            refl,
            remove_found e name rules
                (subst (Split name e.rules) found (without_rule_lem name e.rules)),
          ))
  ]
