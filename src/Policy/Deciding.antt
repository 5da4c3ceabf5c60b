-- ===== src/Policy/Deciding.antt =====
-- `evaluate` against a description of its own: the first rule that matches, is live and has an
-- action that is known decides, and the rules seen up to there are recorded.
use secureprompt.Prelude.{
  ◌≡◌, ◌∙◌, sym, ap, Bool, true, false, not, ◌&&◌, ◌||◌, Option, none, some, List, [], ◌∷◌, ◌++◌,
  map, arith, inl, inr, if◌then◌else◌, Bool-cases, append_assoc, append-nil, ◌==◌, list_keyed,
  nat_keyed,
}
use secureprompt.Text.{Str, lit}
use secureprompt.Types.{Result, ok, ◌>>=◌}
use secureprompt.Vault.{Casing}
use secureprompt.Policy.{Json, Regex, PolicyRuleRow, PolicyEvaluationInput}
use secureprompt.Policy.Conditions.{rule_matches}
use secureprompt.Policy.Engine.{Evaluation, Flow, continue, break, from_rule, act, fire, run_rules}

-- The actions that the engine knows.
abbrev pub is_recognised : Str → Bool
is_recognised a =
    a == lit "deny"
    || a == lit "allow"
    || a == lit "redact"
    || a == lit "transform"
    || a == lit "flag"

module _ (j : Json) (u : Casing) (input : PolicyEvaluationInput) (r : Regex) where
  abbrev pub is_deciding : PolicyRuleRow j → Bool
  is_deciding rule = not rule.dry_run && is_recognised rule.action

  -- The first rule that matches, is no dry run and has a known action.
  unfoldable pub deciding : List (PolicyRuleRow j) → Option (PolicyRuleRow j)
  deciding [] = none
  deciding (rule ∷ rules) =
      let rest = deciding rules in
      if rule_matches j r rule input && is_deciding rule then some rule else rest

  -- The rules that match, up to the deciding one.
  unfoldable pub visited : List (PolicyRuleRow j) → List (PolicyRuleRow j)
  visited [] = []
  visited (rule ∷ rules) =
      let rest = visited rules in
      if rule_matches j r rule input
      then (if is_deciding rule then rule ∷ [] else rule ∷ rest)
      else rest

  -- The action of the last live rule.
  unfoldable pub last_action : Str → List (PolicyRuleRow j) → Str
  last_action a [] = a
  last_action a (rule ∷ rules) = last_action (if rule.dry_run then a else rule.action) rules

  unfoldable pub observe : List (PolicyRuleRow j) → Evaluation → Evaluation
  observe seen e = record e {
    events = e.events ++ map (from_rule j) seen;
    final_action = last_action e.final_action seen;
  }

  unfoldable pub conclude : Option (PolicyRuleRow j) → Evaluation → Result Evaluation
  conclude none e = ok e
  conclude (some rule) e = act j u input rule e >>= (λ (p : Flow × Evaluation). ok p.1)

  act_recognised :
      (rule : PolicyRuleRow j) (e : Evaluation) (k : Evaluation → Result Evaluation)
      → is_recognised rule.action ≡ true
      → (act j u input rule e
          >>= (λ (p : Flow × Evaluation). elim p.0 [ break ↦ ok p.1 | continue ↦ k p.1 ]))
        ≡ conclude (some rule) e
  unfolding act conclude
  act_recognised rule e k h = ground arith

  act_unrecognised :
      (rule : PolicyRuleRow j) (e : Evaluation)
      → is_recognised rule.action ≡ false
      → act j u input rule e ≡ ok (continue, e)
  unfolding act
  act_unrecognised rule e h = ground arith

  -- The state in which a rule acts, or is passed over.
  abbrev recorded : PolicyRuleRow j → Evaluation → Evaluation
  recorded rule e = record e {
    events = e.events ++ from_rule j rule ∷ [];
    final_action = (if rule.dry_run then e.final_action else rule.action);
  }

  observe-cons :
      (rule : PolicyRuleRow j) (seen : List (PolicyRuleRow j)) (e : Evaluation)
      → observe seen (recorded rule e) ≡ observe (rule ∷ seen) e
  unfolding observe last_action
  observe-cons rule seen e =
      rw (append_assoc e.events (from_rule j rule ∷ []) (map (from_rule j) seen))

  observe-nil : (e : Evaluation) → observe [] e ≡ e
  unfolding observe last_action
  observe-nil e = rw (append-nil e.events)

  fire-dry :
      (rule : PolicyRuleRow j) (e : Evaluation)
      → rule.dry_run ≡ true
      → fire j u input rule e ≡ ok (continue, recorded rule e)
  unfolding fire
  fire-dry rule e h = rw h

  fire-live :
      (rule : PolicyRuleRow j) (e : Evaluation)
      → rule.dry_run ≡ false
      → fire j u input rule e ≡ act j u input rule (recorded rule e)
  unfolding fire
  fire-live rule e h = rw h

  passed_over :
      (rule : PolicyRuleRow j) (rules : List (PolicyRuleRow j)) (e : Evaluation)
      → rule_matches j r rule input ≡ true
      → is_deciding rule ≡ false
      → fire j u input rule e ≡ ok (continue, recorded rule e)
  passed_over rule rules e m h = elim (Bool-cases rule.dry_run) [
    | inl dry ↦ fire-dry rule e dry
    | inr live ↦
        fire-live rule e live ∙ act_unrecognised rule (recorded rule e) (ground (arith, h, live))
  ]

  -- The loop of `evaluate` records the rules that match up to the deciding one, and only that one
  -- acts.
  pub run_rules_lem :
      (rules : List (PolicyRuleRow j)) (e : Evaluation)
      → run_rules j u input r rules e ≡ conclude (deciding rules) (observe (visited rules) e)
  unfolding run_rules deciding visited
  run_rules_lem [] e = unfold conclude in ap ok (sym (observe-nil e))
  run_rules_lem (rule ∷ rules) e = elim (Bool-cases (rule_matches j r rule input)) [
    | inr miss ↦ rw miss (run_rules_lem rules e)
    | inl hit ↦ elim (Bool-cases (is_deciding rule)) [
      | inl decides ↦
          rw (hit, decides, fire-live rule e (ground (arith, decides)))
            (act_recognised rule (recorded rule e) (run_rules j u input r rules)
                (ground (arith, decides))
              ∙ ap (conclude (some rule))
                  (sym (observe-nil (recorded rule e)) ∙ observe-cons rule [] e))
      | inr passes ↦
          rw (hit, passes, passed_over rule rules e hit passes)
            (run_rules_lem rules (recorded rule e)
              ∙ ap (conclude (deciding rules)) (observe-cons rule (visited rules) e))
    ]
  ]
