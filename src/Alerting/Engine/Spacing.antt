-- ===== src/Alerting/Engine/Spacing.antt =====
-- engine.go: two alerts with the same rule name are at least the rule's cooldown apart.
use blazelog.Base.{
  ℕ, ◌+◌, ◌≤◌, ◌<◌, ◌≡◌, ◌⊎◌, inl, inr, refl, ap, sym, subst, ◌∙◌, String, Bool, true, false,
  Option, none, some, List, [], ◌∷◌, ◌++◌, ◌||◌, Bool-cases, arith, lt→ltb,
}
use blazelog.Base.Dict.{lookup, str_eq, lookup-insert}
use text.Mathlib.TextEquality.{eq_iff}
use blazelog.Alerting.Rule.{Platform, LogEntry, Rule}
use blazelog.Alerting.Cooldown.{Cooldowns, is_on_cooldown, set_cooldown, before}
use blazelog.Alerting.Engine.{Engine, Alert, start_cooldown}
use blazelog.Alerting.Engine.Evaluate.{deliver, send, evaluate_rule, evaluate_each, evaluate_at}
use blazelog.Alerting.Engine.Outcome.{Outcome, quiet, held_back, raised, evaluate_rule-Outcome}

-- The cooldown is set, and ends at `until` or later.
abbrev pub Lasts : Option ℕ → ℕ → Type 0
Lasts none until = ⊥
Lasts (some expires_at) until = until ≤ expires_at

before-Lasts : (x : Option ℕ) (now until : ℕ) → Lasts x until → now < until → before x now ≡ true
before-Lasts none now until l h = absurd l
before-Lasts (some x) now until l h = lt→ltb now x (omega arith)

module _ (p : Platform) where
  -- Whether an alert of that name is among these.
  abbrev pub raises : String → List (Alert p) → Bool
  raises name [] = false
  raises name (a ∷ alerts) = str_eq a.rule_name name || raises name alerts

  raises-append :
      (name : String) (xs ys : List (Alert p))
      → raises name (xs ++ ys) ≡ (raises name xs || raises name ys)
  raises-append name [] ys = refl
  raises-append name (a ∷ xs) ys = ground (arith, raises-append name xs ys)

  send_cooldowns : (e : Engine p) (a : Alert p) → (send p e a).cooldowns ≡ e.cooldowns
  send_cooldowns e a = ground arith

  send_rules : (e : Engine p) (a : Alert p) → (send p e a).rules ≡ e.rules
  send_rules e a = ground arith

  -- The start of a cooldown for another name, or for this one.
  start_cooldown-other :
      (m : Cooldowns) (r : Rule p) (now : ℕ) (name : String)
      → str_eq r.name name ≡ false
      → lookup name (start_cooldown p m r now) ≡ lookup name m
  unfolding set_cooldown
  start_cooldown-other m r now name e =
      ground (arith, lookup-insert r.name name (now + r.cooldown_duration) m)

  start_cooldown-Lasts :
      (m : Cooldowns) (r : Rule p) (now d : ℕ) (name : String)
      → str_eq r.name name ≡ true
      → 0 < d
      → d ≤ r.cooldown_duration
      → Lasts (lookup name (start_cooldown p m r now)) (now + d)
  unfolding set_cooldown
  start_cooldown-Lasts m r now d name e pos le =
      ground (arith, lookup-insert r.name name (now + r.cooldown_duration) m)

  -- While the cooldown of a name lasts, no alert of that name is raised and the cooldown stays.
  deliver-Lasts :
      (e : Engine p) (r : Rule p) (now : ℕ) (res : Engine p × Option (Alert p)) (name : String)
      (until : ℕ)
      → Outcome p e r now res
      → now < until
      → Lasts (lookup name e.cooldowns) until
      → (raises name (deliver p res).1 ≡ false)
        × Lasts (lookup name (deliver p res).0.cooldowns) until
  unfolding is_on_cooldown
  deliver-Lasts e r now _ name until (quiet w) h l = (refl, l)
  deliver-Lasts e r now _ name until (held_back w s t on) h l = (refl, l)
  deliver-Lasts e r now _ name until (raised w s a t off named) h l =
      elim (Bool-cases (str_eq r.name name)) [
        | inl same ↦
            let named' = (eq_iff r.name name).0 same in
            let on = before-Lasts (lookup name e.cooldowns) now until l h in
            let on' = ap (λ k. before (lookup k e.cooldowns) now) named' ∙ on in
            absurd (let clash = sym on' ∙ off in cc)
        | inr differs ↦
            let e1 = record e {
              windows = w;
              stats = s;
              cooldowns = start_cooldown p e.cooldowns r now;
            } in
            let kept =
              ap (lookup name) (send_cooldowns e1 a)
              ∙ start_cooldown-other e.cooldowns r now name differs in
            let quiet_here : (str_eq a.rule_name name || false) ≡ false =
              ground (arith, ap (λ k. str_eq k name) named, differs) in
            (quiet_here, subst (λ x. Lasts x until) (sym kept) l)
      ]

  evaluate_each-Lasts :
      (e : Engine p) (rules : List (Rule p)) (entry : LogEntry p) (now : ℕ) (clock : Rule p → ℕ)
      (name : String) (until : ℕ)
      → now < until
      → Lasts (lookup name e.cooldowns) until
      → (raises name (evaluate_each p e rules entry now clock).1 ≡ false)
        × Lasts (lookup name (evaluate_each p e rules entry now clock).0.cooldowns) until
  unfolding evaluate_each
  evaluate_each-Lasts e [] entry now clock name until h l = (refl, l)
  evaluate_each-Lasts e (r ∷ rules) entry now clock name until h l =
      let res = evaluate_rule p e r entry now (clock r) in
      let (none_here, l1) =
        deliver-Lasts e r now res name until (evaluate_rule-Outcome p e r entry now (clock r)) h
          l in
      let (none_later, l2) =
        evaluate_each-Lasts (deliver p res).0 rules entry now clock name until h l1 in
      (
        raises-append name (deliver p res).1
              (evaluate_each p (deliver p res).0 rules entry now clock).1
            ∙ rw (none_here, none_later) refl,
        l2,
      )

  -- Entries that are evaluated one after the other.
  unfoldable pub evaluate_all :
      Engine p → List (LogEntry p × ℕ × (Rule p → ℕ)) → Engine p × List (Alert p)
  evaluate_all e [] = (e, [])
  evaluate_all e ((entry, now, clock) ∷ rest) =
      let (e1, first) = evaluate_at p e entry now clock in
      let (e2, later) = evaluate_all e1 rest in (e2, first ++ later)

  abbrev pub AllBefore : ℕ → List (LogEntry p × ℕ × (Rule p → ℕ)) → Type 0
  AllBefore until [] = Unit {0}
  AllBefore until ((entry, now, clock) ∷ rest) = (now < until) × AllBefore until rest

  evaluate_all-Lasts :
      (e : Engine p) (later : List (LogEntry p × ℕ × (Rule p → ℕ))) (name : String) (until : ℕ)
      → AllBefore until later
      → Lasts (lookup name e.cooldowns) until
      → raises name (evaluate_all e later).1 ≡ false
  unfolding evaluate_all evaluate_at
  evaluate_all-Lasts e [] name until b l = refl
  evaluate_all-Lasts e ((entry, now, clock) ∷ rest) name until b l =
      let e0 = record e {
        stats = record e.stats { entries_evaluated = e.stats.entries_evaluated + 1 };
      } in
      let (none_here, l1) = evaluate_each-Lasts e0 e.rules entry now clock name until b.0 l in
      let none_later =
        evaluate_all-Lasts (evaluate_each p e0 e.rules entry now clock).0 rest name until b.1 l1 in
      raises-append name (evaluate_each p e0 e.rules entry now clock).1
        (evaluate_all (evaluate_each p e0 e.rules entry now clock).0 rest).1
      ∙ rw (none_here, none_later) refl

  -- Every rule of that name has a cooldown of at least `d`.
  abbrev pub Cooled : String → ℕ → List (Rule p) → Type 0
  Cooled name d [] = Unit {0}
  Cooled name d (r ∷ rules) =
      ((str_eq r.name name ≡ false) ⊎ (d ≤ r.cooldown_duration)) × Cooled name d rules

  deliver-Lasts_raised :
      (e : Engine p) (r : Rule p) (now d : ℕ) (res : Engine p × Option (Alert p)) (name : String)
      → Outcome p e r now res
      → 0 < d
      → (str_eq r.name name ≡ false) ⊎ (d ≤ r.cooldown_duration)
      → (raises name (deliver p res).1 ≡ false)
        ⊎ Lasts (lookup name (deliver p res).0.cooldowns) (now + d)
  deliver-Lasts_raised e r now d _ name (quiet w) pos cool = inl refl
  deliver-Lasts_raised e r now d _ name (held_back w s t on) pos cool = inl refl
  deliver-Lasts_raised e r now d _ name (raised w s a t off named) pos cool =
      let quiet_as : (b : Bool) → str_eq r.name name ≡ b → (str_eq a.rule_name name || false) ≡ b =
        λ b eq. ground (arith, ap (λ k. str_eq k name) named, eq) in
      let e1 = record e {
        windows = w;
        stats = s;
        cooldowns = start_cooldown p e.cooldowns r now;
      } in
      let kept = ap (lookup name) (send_cooldowns e1 a) in
      elim (Bool-cases (str_eq r.name name)) [
        | inr differs ↦ inl (quiet_as false differs)
        | inl same ↦ elim cool [
          | inl differs ↦ inl (quiet_as false differs)
          | inr le ↦ inr (
              subst (λ x. Lasts x (now + d)) (sym kept)
                (start_cooldown-Lasts e.cooldowns r now d name same pos le))
        ]
      ]

  evaluate_each-Lasts_raised :
      (e : Engine p) (rules : List (Rule p)) (entry : LogEntry p) (now d : ℕ) (clock : Rule p → ℕ)
      (name : String)
      → 0 < d
      → Cooled name d rules
      → (raises name (evaluate_each p e rules entry now clock).1 ≡ false)
        ⊎ Lasts (lookup name (evaluate_each p e rules entry now clock).0.cooldowns) (now + d)
  unfolding evaluate_each
  evaluate_each-Lasts_raised e [] entry now d clock name pos c = inl refl
  evaluate_each-Lasts_raised e (r ∷ rules) entry now d clock name pos c =
      let res = evaluate_rule p e r entry now (clock r) in
      let e1 = (deliver p res).0 in
      elim (deliver-Lasts_raised e r now d res name
        (evaluate_rule-Outcome p e r entry now (clock r)) pos c.0) [
          | inr lasts ↦
              inr
                (evaluate_each-Lasts e1 rules entry now clock name (now + d) (omega arith) lasts).1
          | inl none_here ↦
              elim (evaluate_each-Lasts_raised e1 rules entry now d clock name pos c.1) [
                | inr lasts ↦ inr lasts
                | inl none_later ↦ inl (
                    raises-append name (deliver p res).1
                      (evaluate_each p e1 rules entry now clock).1
                    ∙ rw (none_here, none_later) refl)
              ]
        ]

  -- If an entry that is evaluated at `now` raises an alert with some rule name, and every rule of
  -- that name has a cooldown of at least `d` > 0, then no entry evaluated at a time before `now + d`
  -- afterwards raises one with that name, whatever the other rules do.
  pub evaluate_all_silent :
      (e : Engine p) (entry : LogEntry p) (now d : ℕ) (clock : Rule p → ℕ) (name : String)
      (later : List (LogEntry p × ℕ × (Rule p → ℕ)))
      → 0 < d
      → Cooled name d e.rules
      → raises name (evaluate_at p e entry now clock).1 ≡ true
      → AllBefore (now + d) later
      → raises name (evaluate_all (evaluate_at p e entry now clock).0 later).1 ≡ false
  unfolding evaluate_at
  evaluate_all_silent e entry now d clock name later pos c raise b =
      let e0 = record e {
        stats = record e.stats { entries_evaluated = e.stats.entries_evaluated + 1 };
      } in
      elim (evaluate_each-Lasts_raised e0 e.rules entry now d clock name pos c) [
        | inl none_here ↦ absurd (let clash = sym raise ∙ none_here in cc)
        | inr lasts ↦
            evaluate_all-Lasts (evaluate_each p e0 e.rules entry now clock).0 later name (now + d) b
              lasts
      ]
