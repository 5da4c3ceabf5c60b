-- ===== src/Pipeline/Downgrade.antt =====
-- secureprompt-api/src/pipeline/service.rs: a `deny` of the policy engine that the level `permissive`
-- takes back.
use secureprompt.Prelude.{
  ◌≡◌, ◌∙◌, refl, ap, Bool, true, false, Option, none, some, List, [], ◌∷◌, ◌++◌, arith,
  list_beq_iff, is_empty, nat_keyed, list_keyed, if◌then◌else◌,
}
use secureprompt.Text.{Str, lit}
use secureprompt.Types.{Float, Detection, ok}
use secureprompt.Vault.{Casing}
use secureprompt.Policy.{Json, Regex, PolicyRuleRow}
use secureprompt.Policy.Engine.{PolicyEvaluationOutcome}
use secureprompt.Policy.Outcome.{evaluate_denied}
use secureprompt.Pipeline.{PipelineState, SecureModeRow, InjectionResponse}
use secureprompt.Pipeline.Coverage.{
  SidecarCoverage, SidecarUnavailablePolicy, from_coverage, from_db, sidecar_gate, gated,
  effective_policy, or_block, get_effective,
}
use secureprompt.Pipeline.Secure.{
  apply_secure_mode_override, apply_fallback_redaction, permissive, record_secure_mode_event,
}
use secureprompt.Pipeline.Prepare.{
  GatewayConfig, GatewayRequest, Calls, Prepared, evaluation_input, read_secure_mode,
  injection_enforced, gate_injection, prepare,
}
use secureprompt.Pipeline.Stages.{
  Passed-prepare, evaluation_input-content, secured_lem, concluded_lem, prompt, vault, fresh_state,
  decides, evaluated_lem,
}

-- What the level `permissive` makes of a denied outcome.
abbrev downgraded : List Detection → PolicyEvaluationOutcome → PolicyEvaluationOutcome
downgraded ds o =
    let action = if is_empty ds then lit "allow" else lit "redact" in
    record o {
      denied = false;
      result = record {
        final_action = action;
        events =
            o.result.events
            ++ record {
              rule_id = 0;
              rule_name = lit "Secure mode (permissive): downgraded policy deny";
              action = action;
              dry_run = false;
            }
              ∷ [];
      };
    }

permissive_lem :
    (show_score : Float → Str) (u : Casing) (mode : SecureModeRow) (i : InjectionResponse)
    (o : PolicyEvaluationOutcome) (s : PipelineState)
    → mode.level ≡ lit "permissive"
    → o.denied ≡ true
    → apply_secure_mode_override show_score u mode (s.detections) i (o, s)
      ≡ (downgraded (s.detections) o, s)
unfolding apply_secure_mode_override permissive record_secure_mode_event
permissive_lem show_score u mode i o s level denied =
    rw ((list_beq_iff (mode.level) (lit "permissive")).1 level) (rw denied refl)

effective_policy-ok :
    (found : Option Str) (configured : Str)
    → (policy : SidecarUnavailablePolicy) × (effective_policy (ok found) configured ≡ ok policy)
unfolding effective_policy get_effective or_block
effective_policy-ok none configured = (from_db configured, refl)
effective_policy-ok (some value) configured = (from_db value, refl)

gated_complete :
    (policy : SidecarUnavailablePolicy) → gated SidecarCoverage.complete policy ≡ ok none
unfolding gated sidecar_gate from_coverage
gated_complete policy = refl

read_ok : (mode : SecureModeRow) → read_secure_mode (ok mode) ≡ ok mode
unfolding read_secure_mode
read_ok mode = refl

-- At the level `permissive` nothing asks for the injection check.
gate_injection-permissive :
    (mode : SecureModeRow) (coverage : SidecarCoverage) (policy : SidecarUnavailablePolicy)
    → mode.level ≡ lit "permissive"
    → gate_injection mode coverage policy none ≡ ok none
unfolding gate_injection injection_enforced
gate_injection-permissive mode coverage policy level = rw level refl

fallback-protected :
    (u : Casing) (net : Bool) (o : PolicyEvaluationOutcome) (s : PipelineState)
    → o.unprotected ≡ false
    → apply_fallback_redaction u false net (o, s) ≡ (o, s)
unfolding apply_fallback_redaction
fallback-protected u net o s h = ground (arith, h)

module _ (j : Json) (u : Casing) (show_score : Float → Str) (r : Regex) (config : GatewayConfig)
    (calls : Calls j) (request : GatewayRequest) where
  -- If a `deny` rule decides, the secure mode is enabled at the level `permissive`, all was scanned
  -- and `chat_debug_mode` is off, the request is let through with the prompt that was scanned, which
  -- is the one that came less its file markers, nothing redacted. The action that is recorded is
  -- `redact`, or `allow` where nothing was detected.
  pub prepare_downgraded :
      (rows : List (PolicyRuleRow j)) (rule : PolicyRuleRow j) (mode : SecureModeRow)
      (found : Option Str)
      → calls.rules ≡ ok rows
      → decides j u show_score r config calls request rows ≡ some rule
      → rule.action ≡ lit "deny"
      → calls.secure_mode ≡ ok mode
      → mode.enabled ≡ true
      → mode.level ≡ lit "permissive"
      → calls.sidecar_policy ≡ ok found
      → calls.coverage (prompt j u show_score r config calls request) ≡ SidecarCoverage.complete
      → config.chat_debug_mode ≡ false
      → (p : Prepared) × (prepare j u show_score r config calls request ≡ ok p)
        × (p.policy_outcome.content ≡ prompt j u show_score r config calls request)
        × (p.pipeline_state.redaction_map ≡ [])
        × (p.policy_outcome.result.final_action ≡ (
            if is_empty (calls.detections (prompt j u show_score r config calls request))
            then lit "allow"
            else lit "redact"))
  prepare_downgraded rows rule mode found listed decided denies row on level policy covered plain =
      let (o, run, content, denied, protected) =
        evaluate_denied j u (evaluation_input j u show_score r config calls request) r rows rule
          (vault j u show_score r config calls request) [] decided denies in
      let (policy_row, policy_read) =
        effective_policy-ok found config.sidecar_unavailable_default in
      let s =
        fresh_state j u show_score r config calls request
          (vault j u show_score r config calls request) [] in
      let o' = downgraded (s.detections) o in
      (
        record {
          pipeline_state = s;
          policy_outcome = o';
          secure_mode = mode;
          degraded_reason = none;
        },
        Passed-prepare j u show_score r config calls request _ record {
          policy = policy_row;
          degraded = none;
          settled = (o, s);
          mode = mode;
          overridden = (none, (o', s));
          policy_read =
              ap (λ x. effective_policy x config.sidecar_unavailable_default) policy ∙ policy_read;
          gate_passed = ap (λ c. gated c policy_row) covered ∙ gated_complete policy_row;
          rules_run = evaluated_lem j u show_score r config calls request rows o _ [] listed run;
          mode_read = ap read_secure_mode row ∙ read_ok mode;
          mode_passed =
              secured_lem j u show_score r config calls request mode policy_row none none (o, s)
                (o', s) on (gate_injection-permissive mode _ policy_row level)
                (permissive_lem show_score u mode _ o s level denied);
          let_through =
              concluded_lem j u show_score r config calls request mode none (o', s) (o', s)
                (ap (λ d. apply_fallback_redaction u d config.redact_when_no_rules (o', s)) plain
                  ∙ fallback-protected u config.redact_when_no_rules o' s protected)
                refl;
        },
        content ∙ evaluation_input-content j u show_score r config calls request,
        refl,
        refl,
      )
