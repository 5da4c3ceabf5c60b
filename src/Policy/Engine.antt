-- ===== src/Policy/Engine.antt =====
-- secureprompt-api/src/policy/engine.rs, `evaluate`; policy/events.rs; `list_enabled_rules` of
-- db/policy_repo.rs. The rows that the database lists are an argument.
use secureprompt.Prelude.{
  ℕ, Bool, true, false, not, none, some, List, [], ◌∷◌, ◌++◌, if◌then◌else◌, retain, length, ◌==◌,
  list_keyed, nat_keyed,
}
use secureprompt.Text.{Str, lit}
use secureprompt.Map.{Map}
use secureprompt.Types.{Detection, PolicyEvent, PolicyResult, TokenVault, Result, ok, ◌>>=◌}
use secureprompt.Vault.{Casing, apply_redaction}
use secureprompt.Vault.Transform.{apply_transform}
use secureprompt.Policy.{Json, Regex, PolicyRuleRow, PolicyEvaluationInput}
use secureprompt.Policy.Conditions.{rule_matches, matching_detections, get_str}

pub record PolicyEvaluationOutcome : Type 0 where
  pub content : Str
  pub result : PolicyResult
  pub denied : Bool
  pub rules_evaluated : ℕ
  pub unprotected : Bool

-- The local variables of `evaluate`, with the vault and the map that it is lent.
pub record Evaluation : Type 0 where
  pub content : Str
  pub events : List PolicyEvent
  pub final_action : Str
  pub denied : Bool
  pub applied : Bool
  pub vault : TokenVault
  pub redaction_map : Map Str Str

-- Whether the loop goes on after a rule.
pub data Flow : Type 0 where
  continue break : Flow

module _ (j : Json) where
  unfoldable pub from_rule : PolicyRuleRow j → PolicyEvent
  from_rule rule = record {
    rule_id = rule.id;
    rule_name = rule.name;
    action = rule.action;
    dry_run = rule.dry_run;
  }

  abbrev pub template_of : PolicyRuleRow j → Str
  template_of rule = elim (get_str j rule.action_params (lit "template")) [
    | none ↦ lit "{value}"
    | some template ↦ template
  ]

  unfoldable pub list_enabled_rules :
      Result (List (PolicyRuleRow j)) → Result (List (PolicyRuleRow j))
  list_enabled_rules listed = do
    rules ← listed
    ok (retain (λ (r : PolicyRuleRow j). r.enabled) rules)

  module _ (u : Casing) (input : PolicyEvaluationInput) where
    -- The detections that a firing `redact` rule covers.
    abbrev pub to_redact : PolicyRuleRow j → List Detection
    to_redact rule =
        if input.fail_closed then input.detections else matching_detections j rule input.detections

    abbrev pub redacted_by : PolicyRuleRow j → Evaluation → Evaluation
    redacted_by rule e =
        let r = apply_redaction u e.content (to_redact rule) e.vault e.redaction_map in
        record e {
          applied = true;
          content = r.content;
          vault = r.vault;
          redaction_map = r.redaction_map;
        }

    -- `match rule.action.as_str()`
    unfoldable pub act : PolicyRuleRow j → Evaluation → Result (Flow × Evaluation)
    act rule e =
        if rule.action == lit "deny"
        then ok (break, record e { applied = true; denied = true })
        else if rule.action == lit "allow"
        then ok (break, record e { applied = true })
        else if rule.action == lit "redact"
        then ok (break, redacted_by rule e)
        else if rule.action == lit "transform"
        then (do
          content ←
              apply_transform e.content (matching_detections j rule input.detections)
                (template_of rule)
          ok (break, record e { applied = true; content = content }))
        else if rule.action == lit "flag"
        then ok (break, record e { applied = true })
        else ok (continue, e)

    -- One turn of the loop, for a rule that matches.
    unfoldable pub fire : PolicyRuleRow j → Evaluation → Result (Flow × Evaluation)
    fire rule e =
        let recorded = record e { events = e.events ++ from_rule rule ∷ [] } in
        if rule.dry_run
        then ok (continue, recorded)
        else act rule (record recorded { final_action = rule.action })

    unfoldable pub run_rules : Regex → List (PolicyRuleRow j) → Evaluation → Result Evaluation
    run_rules r [] e = ok e
    run_rules r (rule ∷ rules) e =
        let rest = run_rules r rules in
        if rule_matches j r rule input
        then fire rule e
          >>= (λ (p : Flow × Evaluation). elim p.0 [ break ↦ ok p.1 | continue ↦ rest p.1 ])
        else rest e

    abbrev pub start_evaluation : TokenVault → Map Str Str → Evaluation
    start_evaluation vault redaction_map = record {
      content = input.content;
      events = [];
      final_action = lit "allow";
      denied = false;
      applied = false;
      vault = vault;
      redaction_map = redaction_map;
    }

    abbrev pub outcome_of : ℕ → Evaluation → PolicyEvaluationOutcome
    outcome_of rules_evaluated e = record {
      content = e.content;
      result = record { final_action = e.final_action; events = e.events };
      denied = e.denied;
      rules_evaluated = rules_evaluated;
      unprotected = not e.applied;
    }

    abbrev pub finish : ℕ → Evaluation → Result (PolicyEvaluationOutcome × TokenVault × Map Str Str)
    finish n e = ok (outcome_of n e, e.vault, e.redaction_map)

    -- The outcome, beside the vault and the redaction map as they are left.
    unfoldable pub evaluate :
        Regex
        → Result (List (PolicyRuleRow j))
        → TokenVault
        → Map Str Str
        → Result (PolicyEvaluationOutcome × TokenVault × Map Str Str)
    evaluate r listed vault redaction_map = do
      rules ← list_enabled_rules listed
      e ← run_rules r rules (start_evaluation vault redaction_map)
      finish (length rules) e
