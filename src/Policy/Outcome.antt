-- ===== src/Policy/Outcome.antt =====
-- The outcome of `evaluate`, from the rule that decides.
use secureprompt.Prelude.{
  ◌≡◌, ◌∙◌, refl, sym, ap, Bool, true, false, not, ◌||◌, Option, none, some, List, [], ◌∷◌, map,
  arith, retain, length, ◌==◌, list_keyed, nat_keyed,
}
use secureprompt.Text.{Str, lit}
use secureprompt.Map.{Map}
use secureprompt.Types.{PolicyResult, TokenVault, Result, ok, err, panic, ◌>>=◌}
use secureprompt.Vault.{Casing, apply_redaction}
use secureprompt.Policy.{Json, Regex, PolicyRuleRow, PolicyEvaluationInput}
use secureprompt.Policy.Conditions.{is_some_and}
use secureprompt.Policy.Engine.{
  Evaluation, Flow, PolicyEvaluationOutcome, from_rule, act, start_evaluation, outcome_of, finish,
  evaluate, list_enabled_rules,
}
use secureprompt.Policy.Deciding.{
  is_recognised, deciding, visited, last_action, observe, conclude, run_rules_lem,
}

abbrev pub is_none {ℓ} : {A : Type ℓ} → Option A → Bool
is_none none = true
is_none (some a) = false

module _ (j : Json) (u : Casing) (input : PolicyEvaluationInput) (r : Regex) where
  abbrev pub denies : Option (PolicyRuleRow j) → Bool
  denies q = is_some_and q (λ rule. rule.action == lit "deny")

  -- What the deciding rule leaves of the state.
  pub record Concluded (q : Option (PolicyRuleRow j)) (e e' : Evaluation) : Type 0 where
    pub events : e'.events ≡ e.events
    pub final_action : e'.final_action ≡ e.final_action
    pub denied : e'.denied ≡ (e.denied || denies q)
    pub applied : is_none q ≡ false → e'.applied ≡ true
    pub idle : is_none q ≡ true → e' ≡ e

  act-Concluded :
      (rule : PolicyRuleRow j) (e e' : Evaluation) (f : Flow)
      → is_recognised rule.action ≡ true
      → act j u input rule e ≡ ok (f, e')
      → Concluded (some rule) e e'
  unfolding act
  act-Concluded rule e e' f known h = ground arith

  deciding_recognised :
      (rules : List (PolicyRuleRow j)) (rule : PolicyRuleRow j)
      → deciding j u input r rules ≡ some rule
      → is_recognised rule.action ≡ true
  unfolding deciding
  deciding_recognised [] rule h = cc
  deciding_recognised (x ∷ rules) rule h = ground (arith, deciding_recognised rules rule)

  conclude-Concluded :
      (q : Option (PolicyRuleRow j)) (e e' : Evaluation)
      → ((rule : PolicyRuleRow j) → q ≡ some rule → is_recognised rule.action ≡ true)
      → conclude j u input r q e ≡ ok e'
      → Concluded q e e'
  unfolding conclude
  conclude-Concluded none e e' known h = ground arith
  conclude-Concluded (some rule) e e' known h = go (act j u input rule e) refl h
    where
      go :
          (m : Result (Flow × Evaluation))
          → act j u input rule e ≡ m
          → (m >>= (λ (p : Flow × Evaluation). ok p.1)) ≡ ok e'
          → Concluded (some rule) e e'
      go (ok (f, e'')) acted h' =
          act-Concluded rule e e' f (known rule refl) (ground (arith, acted, h'))
      go (err x) acted h' = cc
      go panic acted h' = cc

  -- The enabled rules among the rows.
  abbrev pub enabled_rules : List (PolicyRuleRow j) → List (PolicyRuleRow j)
  enabled_rules rows = retain (λ (q : PolicyRuleRow j). q.enabled) rows

  evaluate_lem :
      (rows : List (PolicyRuleRow j)) (vault : TokenVault) (redaction_map : Map Str Str)
      → evaluate j u input r (ok rows) vault redaction_map ≡ (
          conclude j u input r (deciding j u input r (enabled_rules rows)) (
            observe j u input r
              (visited j u input r (enabled_rules rows))
              (start_evaluation j u input vault redaction_map))
          >>= finish j u input (length (enabled_rules rows)))
  unfolding evaluate list_enabled_rules
  evaluate_lem rows vault redaction_map = rw (
      run_rules_lem j u input r (enabled_rules rows)
        (start_evaluation j u input vault redaction_map))

  unprotected_of :
      (q : Option (PolicyRuleRow j)) (e : Evaluation)
      → (is_none q ≡ false → e.applied ≡ true)
      → (is_none q ≡ true → e.applied ≡ false)
      → not e.applied ≡ is_none q
  unprotected_of none e h k = ap not (k refl)
  unprotected_of (some rule) e h k = ap not (h refl)

  -- If the evaluation returns, then the request is denied exactly if the first enabled rule that
  -- matches, is no dry run and has a known action is a `deny` rule; it is unprotected exactly if
  -- there is no such rule; the events are those of the matching rules up to that rule, in order;
  -- and `rules_evaluated` is the number of enabled rules.
  pub evaluate_outcome :
      (rows : List (PolicyRuleRow j)) (vault v : TokenVault) (redaction_map m : Map Str Str)
      (o : PolicyEvaluationOutcome)
      → evaluate j u input r (ok rows) vault redaction_map ≡ ok (o, v, m)
      → let q = deciding j u input r (enabled_rules rows) in
        (o.denied ≡ denies q)
        × (o.unprotected ≡ is_none q)
        × (o.result.events ≡ map (from_rule j) (visited j u input r (enabled_rules rows)))
        × (o.rules_evaluated ≡ length (enabled_rules rows))
  unfolding observe
  evaluate_outcome rows vault v redaction_map m o h =
      go (conclude j u input r (deciding j u input r (enabled_rules rows)) begun) refl
        (sym (evaluate_lem rows vault redaction_map) ∙ h)
    where
      q : Option (PolicyRuleRow j)
      q = deciding j u input r (enabled_rules rows)

      begun : Evaluation
      begun =
          observe j u input r (visited j u input r (enabled_rules rows))
            (start_evaluation j u input vault redaction_map)

      go :
          (result : Result Evaluation)
          → conclude j u input r q begun ≡ result
          → (result >>= finish j u input (length (enabled_rules rows))) ≡ ok (o, v, m)
          → (o.denied ≡ denies q)
            × (o.unprotected ≡ is_none q)
            × (o.result.events ≡ map (from_rule j) (visited j u input r (enabled_rules rows)))
            × (o.rules_evaluated ≡ length (enabled_rules rows))
      go (ok e) concluded h' =
          let c =
            conclude-Concluded q begun e (deciding_recognised (enabled_rules rows)) concluded in
          let same : outcome_of j u input (length (enabled_rules rows)) e ≡ o = cc h' in
          rw (← same) (
            c.denied,
            unprotected_of q e c.applied (λ i. ap (λ (x : Evaluation). x.applied) (c.idle i)),
            c.events,
            refl,
          )
      go (err x) concluded h' = cc
      go panic concluded h' = cc

  abbrev observed : List (PolicyRuleRow j) → PolicyResult
  observed rules = record {
    final_action = last_action j u input r (lit "allow") (visited j u input r rules);
    events = map (from_rule j) (visited j u input r rules);
  }

  -- With `fail_closed`, if the rule that decides is a `redact` rule, the evaluation returns, the
  -- content is the input redacted for every detection of the request, whatever classes the rule
  -- names, the vault and the map are those of that redaction, and the request is not denied.
  pub evaluate_fail_closed :
      (rows : List (PolicyRuleRow j)) (rule : PolicyRuleRow j) (vault : TokenVault)
      (redaction_map : Map Str Str)
      → input.fail_closed ≡ true
      → deciding j u input r (enabled_rules rows) ≡ some rule
      → rule.action ≡ lit "redact"
      → let redaction = apply_redaction u input.content input.detections vault redaction_map in
        (o : PolicyEvaluationOutcome) × (evaluate j u input r (ok rows) vault redaction_map
          ≡ ok (o, redaction.vault, redaction.redaction_map))
        × (o.content ≡ redaction.content)
        × (o.denied ≡ false)
        × (o.unprotected ≡ false)
  unfolding conclude act observe
  evaluate_fail_closed rows rule vault redaction_map closed decides redacts =
      let rules = enabled_rules rows in
      (
        record {
          content = (apply_redaction u input.content input.detections vault redaction_map).content;
          result = observed rules;
          denied = false;
          rules_evaluated = length rules;
          unprotected = false;
        },
        evaluate_lem rows vault redaction_map ∙ rw (decides, redacts, closed) refl,
        refl,
        refl,
        refl,
      )

  -- A `deny` rule that decides leaves the content, the vault and the map as they came.
  pub evaluate_denied :
      (rows : List (PolicyRuleRow j)) (rule : PolicyRuleRow j) (vault : TokenVault)
      (redaction_map : Map Str Str)
      → deciding j u input r (enabled_rules rows) ≡ some rule
      → rule.action ≡ lit "deny"
      → (o : PolicyEvaluationOutcome) × (evaluate j u input r (ok rows) vault redaction_map
          ≡ ok (o, vault, redaction_map))
        × (o.content ≡ input.content)
        × (o.denied ≡ true)
        × (o.unprotected ≡ false)
  unfolding conclude act observe
  evaluate_denied rows rule vault redaction_map decides denied =
      let rules = enabled_rules rows in
      (
        record {
          content = input.content;
          result = observed rules;
          denied = true;
          rules_evaluated = length rules;
          unprotected = false;
        },
        evaluate_lem rows vault redaction_map ∙ rw (decides, denied) refl,
        refl,
        refl,
        refl,
      )

  -- If no enabled rule that matches is live with a known action, the evaluation returns, the
  -- content, the vault and the map are as they came, and the request is unprotected.
  pub evaluate_unprotected :
      (rows : List (PolicyRuleRow j)) (vault : TokenVault) (redaction_map : Map Str Str)
      → deciding j u input r (enabled_rules rows) ≡ none
      → (o : PolicyEvaluationOutcome) × (evaluate j u input r (ok rows) vault redaction_map
          ≡ ok (o, vault, redaction_map))
        × (o.content ≡ input.content)
        × (o.denied ≡ false)
        × (o.unprotected ≡ true)
  unfolding conclude observe
  evaluate_unprotected rows vault redaction_map h =
      let rules = enabled_rules rows in
      (
        record {
          content = input.content;
          result = observed rules;
          denied = false;
          rules_evaluated = length rules;
          unprotected = true;
        },
        evaluate_lem rows vault redaction_map ∙ rw h refl,
        refl,
        refl,
        refl,
      )
