-- ===== src/Pipeline/Secure.antt =====
-- secureprompt-api/src/pipeline/service.rs, `apply_secure_mode_override` and
-- `apply_fallback_redaction`: what the workspace's secure mode and the safety net do to the outcome
-- of the policy engine. `show_score` is `format!("{:.2}", score)`.
use secureprompt.Prelude.{
  Bool, true, false, not, ◌&&◌, ◌||◌, Option, none, some, List, [], ◌∷◌, ◌++◌, ◌==◌, is_empty,
  nat_keyed, list_keyed, if◌then◌else◌,
}
use secureprompt.Text.{Str, lit}
use secureprompt.Types.{Float, float_ge, Detection}
use secureprompt.Vault.{Casing, apply_redaction}
use secureprompt.Policy.Engine.{PolicyEvaluationOutcome}
use secureprompt.Pipeline.{
  PipelineState, SecureModeRow, InjectionResponse, injection_block_threshold,
}

-- The outcome and the state, which the functions change in place.
abbrev pub Settled : Type 0
Settled = PolicyEvaluationOutcome × PipelineState

abbrev pub with_action : Str → PolicyEvaluationOutcome → PolicyEvaluationOutcome
with_action action o = record o { result = record (o.result) { final_action = action } }

unfoldable pub record_secure_mode_event :
    Str → Str → PolicyEvaluationOutcome → PolicyEvaluationOutcome
record_secure_mode_event rule_name action o = record o {
  result = record (o.result) {
    events =
        o.result.events
        ++ record { rule_id = 0; rule_name = rule_name; action = action; dry_run = false } ∷ [];
  };
}

unfoldable pub injection_blocking : InjectionResponse → Bool
unfolding float_ge
injection_blocking injection =
    injection.is_injection && float_ge injection.score injection_block_threshold

-- `if outcome.result.final_action == "allow" { outcome.result.final_action = "redact" }`
abbrev pub allow_to_redact : PolicyEvaluationOutcome → PolicyEvaluationOutcome
allow_to_redact o = if o.result.final_action == lit "allow" then with_action (lit "redact") o else o

-- `apply_redaction` on the content, the vault and the map of the request.
unfoldable pub redact_with : Casing → List Detection → Settled → Settled
redact_with u detections (o, s) =
    let r = apply_redaction u o.content detections s.vault s.redaction_map in
    (
      allow_to_redact (record o { content = r.content }),
      record s { vault = r.vault; redaction_map = r.redaction_map },
    )

-- `outcome.denied = true`, the action `deny` and its event.
unfoldable pub deny_with : Str → PolicyEvaluationOutcome → PolicyEvaluationOutcome
unfolding record_secure_mode_event
deny_with reason o =
    record_secure_mode_event reason (lit "deny")
      (with_action (lit "deny") (record o { denied = true }))

module _ (show_score : Float → Str) where
  unfoldable pub permissive : List Detection → PolicyEvaluationOutcome → PolicyEvaluationOutcome
  unfolding record_secure_mode_event
  permissive detections o =
      let action = if is_empty detections then lit "allow" else lit "redact" in
      if o.denied
      then record_secure_mode_event (lit "Secure mode (permissive): downgraded policy deny") action
          (with_action action (record o { denied = false }))
      else o

  unfoldable pub strict :
      List Detection → InjectionResponse → PolicyEvaluationOutcome → PolicyEvaluationOutcome
  unfolding injection_blocking deny_with
  strict detections injection o =
      if not (is_empty detections) || injection_blocking injection
      then deny_with
          (if injection_blocking injection
            then lit "Secure mode (strict): blocked on prompt injection (score "
              ++ (show_score injection.score ++ lit ")")
            else lit "Secure mode (strict): blocked on PII/secret detection")
          o
      else o

  -- The toggles of the level `standard`.
  unfoldable pub toggles :
      SecureModeRow
      → List Detection
      → InjectionResponse
      → PolicyEvaluationOutcome
      → PolicyEvaluationOutcome
  unfolding injection_blocking deny_with
  toggles config detections injection o =
      if config.block_on_pii_detection && not (is_empty detections)
      then deny_with (lit "Secure mode: block on PII detection") o
      else if config.block_on_injection_detection && injection_blocking injection
      then deny_with
          (lit "Secure mode: block on prompt injection (score "
            ++ (show_score injection.score ++ lit ")"))
          o
      else o

  -- The safety net of the level `standard`.
  unfoldable pub standard_net : Casing → List Detection → Settled → Settled
  unfolding redact_with
  standard_net u detections s =
      if not (is_empty detections) && is_empty (s.1.redaction_map)
      then redact_with u detections s
      else s

  unfoldable pub apply_secure_mode_override :
      Casing → SecureModeRow → List Detection → InjectionResponse → Settled → Settled
  unfolding permissive strict standard_net toggles
  apply_secure_mode_override u config detections injection (o, s) =
      if config.level == lit "permissive"
      then (permissive detections o, s)
      else if config.level == lit "strict"
      then (strict detections injection o, s)
      else (let (redacted, state) = standard_net u detections (o, s) in
          (toggles config detections injection redacted, state))

unfoldable pub apply_fallback_redaction : Casing → Bool → Bool → Settled → Settled
unfolding redact_with
apply_fallback_redaction u chat_debug_mode redact_when_no_rules (o, s) =
    if (chat_debug_mode || (redact_when_no_rules && o.unprotected))
      && (is_empty (s.redaction_map) && not (is_empty (s.detections)))
    then redact_with u (s.detections) (o, s)
    else (o, s)

unfoldable pub policy_violation_label : Str → Option Str
policy_violation_label action =
    if action == lit "deny"
    then some (lit "block")
    else if action == lit "redact" || action == lit "transform"
    then some (lit "redact")
    else if action == lit "flag"
    then some (lit "flag")
    else none
