-- ===== src/Pipeline/Prepare.antt =====
-- secureprompt-api/src/pipeline/service.rs, `prepare`: all that happens to a request before the
-- provider is called. What the calls of the database, of Redis, of the detectors and of the ML
-- sidecar answer is in `Calls`; the audit rows that a refusal writes are left out.
use secureprompt.Prelude.{
  Bool, not, ◌&&◌, ◌||◌, Option, none, some, List, [], ◌==◌, nat_keyed, list_keyed, if◌then◌else◌,
}
use secureprompt.Text.{Str, lit}
use secureprompt.Map.{Map}
use secureprompt.Types.{
  Float, RequestId, WorkspaceId, Detection, Message, TokenVault, ApiError, Result, ok, err, panic,
  ◌>>=◌,
}
use secureprompt.Vault.{Casing}
use secureprompt.Policy.{Json, Regex, PolicyRuleRow, PolicyEvaluationInput}
use secureprompt.Policy.Engine.{PolicyEvaluationOutcome, evaluate}
use secureprompt.Pipeline.{PipelineState, SecureModeRow, InjectionResponse}
use secureprompt.Pipeline.Coverage.{
  SidecarCoverage, CoverageLoss, SidecarUnavailablePolicy, effective_policy, gated,
}
use secureprompt.Pipeline.Markers.{prompt_from_messages, preload_file_vault}
use secureprompt.Pipeline.Secure.{Settled, apply_secure_mode_override, apply_fallback_redaction}

pub record GatewayConfig : Type 0 where
  pub sidecar_unavailable_default : Str
  pub redact_when_no_rules : Bool
  pub chat_debug_mode : Bool

pub record GatewayRequest : Type 0 where
  pub request_id : RequestId
  pub workspace_id : WorkspaceId
  pub messages : List Message
  pub provider_name : Str
  pub public_model : Str

-- `detections` is what `merge_detections` makes of the detectors and the sidecar.
pub record Calls (j : Json) : Type 0 where
  pub load_file_vault : Str → Option (Map Str Str)
  pub detections : Str → List Detection
  pub coverage : Str → SidecarCoverage
  pub injection : Str → InjectionResponse
  pub injection_coverage : Str → SidecarCoverage
  pub sidecar_policy : Result (Option Str)
  pub secure_mode : Result SecureModeRow
  pub rules : Result (List (PolicyRuleRow j))

pub record Prepared : Type 0 where
  pub pipeline_state : PipelineState
  pub policy_outcome : PolicyEvaluationOutcome
  pub secure_mode : SecureModeRow
  pub degraded_reason : Option CoverageLoss

unfoldable pub read_secure_mode : Result SecureModeRow → Result SecureModeRow
read_secure_mode (ok mode) = ok mode
read_secure_mode (err e) =
    err
      (ApiError.service_unavailable (lit "secure mode configuration unavailable; request refused"))
read_secure_mode panic = panic

unfoldable pub injection_enforced : SecureModeRow → Bool
injection_enforced mode =
    mode.level == lit "strict"
    || (not (mode.level == lit "permissive") && mode.block_on_injection_detection)

-- `Option::or`
abbrev pub or_reason : Option CoverageLoss → Option CoverageLoss → Option CoverageLoss
or_reason none reason = reason
or_reason (some first) reason = some first

-- The gate on the injection classifier.
unfoldable pub gate_injection :
    SecureModeRow
    → SidecarCoverage
    → SidecarUnavailablePolicy
    → Option CoverageLoss
    → Result (Option CoverageLoss)
unfolding injection_enforced gated
gate_injection mode coverage policy degraded =
    if injection_enforced mode
    then gated coverage policy >>= (λ reason. ok (or_reason degraded reason))
    else ok degraded

module _ (j : Json) (u : Casing) (show_score : Float → Str) (r : Regex) (config : GatewayConfig)
    (calls : Calls j) (request : GatewayRequest) where
  -- The prompt without markers, and the vault with what they refer to.
  unfoldable pub preloaded : Str × TokenVault
  unfolding preload_file_vault prompt_from_messages
  preloaded = preload_file_vault calls.load_file_vault (prompt_from_messages request.messages) []

  unfoldable pub evaluation_input : PolicyEvaluationInput
  unfolding preloaded
  evaluation_input = record {
    request_id = request.request_id;
    workspace_id = request.workspace_id;
    provider_name = request.provider_name;
    model = request.public_model;
    content = preloaded.0;
    detections = calls.detections (preloaded.0);
    fail_closed = config.redact_when_no_rules;
  }

  -- The policy engine, on the state of the request.
  unfoldable pub evaluated : Result Settled
  unfolding evaluation_input evaluate
  evaluated = evaluate j u evaluation_input r calls.rules (preloaded.1) [] >>= (λ p. ok (
    p.0,
    record {
      vault = p.1;
      detections = calls.detections (preloaded.0);
      policy_events = [];
      redaction_map = p.2;
    },
  ))

  -- `if secure_mode.enabled { … }`
  unfoldable pub secured :
      SecureModeRow
      → SidecarUnavailablePolicy
      → Option CoverageLoss
      → Settled
      → Result (Option CoverageLoss × Settled)
  unfolding gate_injection apply_secure_mode_override
  secured mode policy degraded s =
      if mode.enabled
      then gate_injection mode (calls.injection_coverage (preloaded.0)) policy degraded
        >>= (λ reason. ok (
          reason,
          apply_secure_mode_override show_score u mode (s.1.detections)
              (calls.injection (preloaded.0)) s,
        ))
      else ok (degraded, s)

  -- The safety net, and the refusal of what is denied.
  unfoldable pub concluded : SecureModeRow → Option CoverageLoss × Settled → Result Prepared
  unfolding apply_fallback_redaction
  concluded mode (reason, s) =
      let (outcome, state) =
        apply_fallback_redaction u config.chat_debug_mode config.redact_when_no_rules s in
      if outcome.denied
      then err (ApiError.forbidden (lit "request denied by policy"))
      else ok record {
        pipeline_state = state;
        policy_outcome = outcome;
        secure_mode = mode;
        degraded_reason = reason;
      }

  -- `prepare`. The model has been resolved before, to a list of targets that is not empty; the audit
  -- rows that are written on the way do not decide anything.
  unfoldable pub prepare : Result Prepared
  unfolding effective_policy gated evaluated read_secure_mode secured concluded
  prepare = do
    policy ← effective_policy calls.sidecar_policy config.sidecar_unavailable_default
    degraded ← gated (calls.coverage (preloaded.0)) policy
    s ← evaluated
    mode ← read_secure_mode calls.secure_mode
    p ← secured mode policy degraded s
    concluded mode p
