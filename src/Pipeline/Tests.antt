-- ===== src/Pipeline/Tests.antt =====
-- The pipeline at concrete requests. The JSON of these rules is a list of no conditions.
use secureprompt.Prelude.{
  ◌≡◌, ◌≢◌, refl, true, false, none, some, List, [], ◌∷◌, All, nat_keyed, list_keyed, is_empty,
  if◌then◌else◌,
}
use secureprompt.Text.{Str, lit, slice, starts_with, find, is_char_boundary, decimal}
use secureprompt.Types.{Float, Detection, Message, ok, err, vault_insert}
use secureprompt.Vault.{
  apply_redaction, redact_all, sort_detections, sort_insert, redact_one, accepts, emit, token,
  title_case, next_count,
}
use secureprompt.Map.{insert, lookup}
use secureprompt.Vault.Examples.{ascii, detected}
use secureprompt.Policy.{Json, Regex, PolicyRuleRow}
use secureprompt.Policy.Engine.{run_rules, list_enabled_rules}
use secureprompt.Policy.Conditions.{rule_matches, detection_conditions}
use secureprompt.Policy.Deciding.{deciding}
use secureprompt.Pipeline.{SecureModeRow}
use secureprompt.Pipeline.Coverage.{
  SidecarCoverage, SidecarOutage, CoverageLoss, from_coverage, coverage_unavailable,
}
use secureprompt.Pipeline.Markers.{strip_file_vault_markers, prompt_from_messages}
use secureprompt.Pipeline.Prepare.{GatewayConfig, GatewayRequest, Calls, Prepared, prepare}
use secureprompt.Pipeline.Safety.{prepare_unprotected}
use secureprompt.Pipeline.Closed.{prepare_fails_closed}
use secureprompt.Pipeline.Enforced.{IsCleared, IsEnforcing, prepare-IsCleared, prepare-scanned}
use secureprompt.Pipeline.Downgrade.{prepare_downgraded}
use secureprompt.Pipeline.Stripping.{strip_from, strip_file_vault_markers_lem}
use secureprompt.Pipeline.Lines.{terminated, IsTerminated}
use secureprompt.Pipeline.Offsets.{last_user_message_span-slice}
use secureprompt.Pipeline.Audit.{last_user_message_span}
use secureprompt.Pipeline.Stages.{prompt, vault, decides}

abbrev no_json : Json
no_json = record {
  Value = Unit;
  get = λ v k. none;
  as_str = λ v. none;
  as_array = λ v. some [];
  as_f64 = λ v. none;
}

abbrev no_regex : Regex
no_regex = record { is_match = λ pattern text. none }

abbrev config : GatewayConfig
config = record {
  sidecar_unavailable_default = lit "block";
  redact_when_no_rules = true;
  chat_debug_mode = false;
}

abbrev request : GatewayRequest
request = record {
  request_id = 1;
  workspace_id = 2;
  messages = record { role = lit "user"; content = lit "[[sp:v=a]]86 x" } ∷ [];
  provider_name = lit "openai";
  public_model = lit "gpt";
}

abbrev mode_at : Str → SecureModeRow
mode_at level = record {
  enabled = true;
  level = level;
  block_on_pii_detection = false;
  block_on_injection_detection = false;
  redact_pii_in_responses = false;
}

abbrev deny_rule : PolicyRuleRow no_json
deny_rule = record {
  id = 7;
  name = lit "no";
  conditions = tt;
  action = lit "deny";
  action_params = tt;
  enabled = true;
  dry_run = false;
}

abbrev calls : List Detection → SidecarCoverage → Str → List (PolicyRuleRow no_json) → Calls no_json
calls ds coverage level rules = record {
  load_file_vault = λ vref. none;
  detections = λ text. ds;
  coverage = λ text. coverage;
  injection = λ text. record { is_injection = false; score = Float.finite false 0 };
  injection_coverage = λ text. SidecarCoverage.complete;
  sidecar_policy = ok none;
  secure_mode = ok (mode_at level);
  rules = ok rules;
}

abbrev number : Detection
number = detected (lit "PIN") 0 2 (lit "86")

abbrev score_text : Float → Str
score_text f = lit "0.00"

abbrev net_calls : Calls no_json
net_calls = calls (number ∷ []) SidecarCoverage.complete (lit "permissive") []

abbrev lost_calls : Calls no_json
lost_calls = calls [] (SidecarCoverage.absent SidecarOutage.disabled) (lit "permissive") []

abbrev strict_calls : Calls no_json
strict_calls = calls [] SidecarCoverage.complete (lit "strict") []

abbrev denied_calls : Calls no_json
denied_calls = calls (number ∷ []) SidecarCoverage.complete (lit "permissive") (deny_rule ∷ [])

abbrev netted : Prepared
netted = record {
  pipeline_state = record {
    vault = (lit "{{Pin_1}}", lit "86") ∷ [];
    detections = number ∷ [];
    policy_events = [];
    redaction_map = (lit "{{Pin_1}}", lit "86") ∷ [];
  };
  policy_outcome = record {
    content = lit "{{Pin_1}} x";
    result = record { final_action = lit "redact"; events = [] };
    denied = false;
    rules_evaluated = 0;
    unprotected = true;
  };
  secure_mode = mode_at (lit "permissive");
  degraded_reason = none;
}

abbrev clean : Prepared
clean = record {
  pipeline_state = record { vault = []; detections = []; policy_events = []; redaction_map = [] };
  policy_outcome = record {
    content = lit "86 x";
    result = record { final_action = lit "allow"; events = [] };
    denied = false;
    rules_evaluated = 0;
    unprotected = true;
  };
  secure_mode = mode_at (lit "strict");
  degraded_reason = none;
}

prepare-netted : prepare no_json ascii score_text no_regex config (net_calls) request ≡ ok netted
unfolding prepare apply_redaction list_enabled_rules run_rules redact_all sort_detections
    sort_insert redact_one accepts find starts_with is_char_boundary emit vault_insert insert lookup
    token title_case decimal next_count
prepare-netted = refl

prepare_clean : prepare no_json ascii score_text no_regex config (strict_calls) request ≡ ok clean
unfolding prepare apply_redaction list_enabled_rules run_rules find starts_with
prepare_clean = refl

nothing_decides : decides no_json ascii score_text no_regex config (net_calls) request [] ≡ none
unfolding deciding
nothing_decides = refl

prepare_unprotected_example :
    let redaction =
      apply_redaction ascii
        (prompt no_json ascii score_text no_regex config (net_calls) request)
        (number ∷ [])
        (vault no_json ascii score_text no_regex config (net_calls) request)
        [] in
    (netted.policy_outcome.content ≡ redaction.content)
    × (netted.pipeline_state.vault ≡ redaction.vault)
    × (netted.pipeline_state.redaction_map ≡ redaction.redaction_map)
prepare_unprotected_example =
    prepare_unprotected no_json ascii score_text no_regex config (net_calls) request [] refl refl
      netted nothing_decides prepare-netted

coverage_lost :
    from_coverage
      (lost_calls.coverage (prompt no_json ascii score_text no_regex config (lost_calls) request))
    ≡ some (CoverageLoss.outage SidecarOutage.disabled)
unfolding from_coverage
coverage_lost = refl

block_is_closed : lit "block" ≢ lit "degrade_with_alert"
block_is_closed h = cc h

prepare_fails_closed_example :
    prepare no_json ascii score_text no_regex config (lost_calls) request ≡ err coverage_unavailable
prepare_fails_closed_example =
    prepare_fails_closed no_json ascii score_text no_regex config (lost_calls) request
      (CoverageLoss.outage SidecarOutage.disabled) coverage_lost block_is_closed

prepare-IsCleared_example : IsCleared (mode_at (lit "strict")) [] (strict_calls.injection [])
prepare-IsCleared_example =
    prepare-IsCleared no_json ascii score_text no_regex config (strict_calls) request clean
      (mode_at (lit "strict")) prepare_clean refl refl

prepare-scanned_example :
    (SidecarCoverage.complete ≡ SidecarCoverage.complete)
    × (true ≡ true
        → IsEnforcing (mode_at (lit "strict"))
        → SidecarCoverage.complete ≡ SidecarCoverage.complete)
prepare-scanned_example =
    prepare-scanned no_json ascii score_text no_regex config (strict_calls) request clean
      (mode_at (lit "strict")) prepare_clean refl refl

deny_decides :
    decides no_json ascii score_text no_regex config (denied_calls) request (deny_rule ∷ [])
    ≡ some deny_rule
unfolding deciding rule_matches detection_conditions
deny_decides = refl

prepare_downgraded_example :
    (p : Prepared) × (prepare no_json ascii score_text no_regex config (denied_calls) request
      ≡ ok p)
    × (p.policy_outcome.content
        ≡ prompt no_json ascii score_text no_regex config (denied_calls) request)
    × (p.pipeline_state.redaction_map ≡ [])
    × (p.policy_outcome.result.final_action
        ≡ (if is_empty (number ∷ []) then lit "allow" else lit "redact"))
prepare_downgraded_example =
    prepare_downgraded no_json ascii score_text no_regex config (denied_calls) request
      (deny_rule ∷ []) deny_rule (mode_at (lit "permissive")) none refl deny_decides refl refl refl
      refl refl refl refl

strip_file_vault_markers_lem_example :
    strip_file_vault_markers (lit "a[[sp:v=r]]b[[sp:v=") ≡ strip_from 0 (lit "a[[sp:v=r]]b[[sp:v=")
strip_file_vault_markers_lem_example = strip_file_vault_markers_lem (lit "a[[sp:v=r]]b[[sp:v=")

abbrev messages : List Message
messages =
    record { role = lit "User"; content = lit "[[sp:v=a]]86 x" }
    ∷ record { role = lit "assistant"; content = lit "ok" }
    ∷ []

messages-IsTerminated : All IsTerminated messages
unfolding terminated find starts_with
messages-IsTerminated = (refl, (refl, tt))

messages_span : last_user_message_span messages ≡ some (0, 4, lit "86 x")
unfolding last_user_message_span find starts_with
messages_span = refl

last_user_message_span-slice_example :
    slice ((strip_file_vault_markers (prompt_from_messages messages)).0) 0 4 ≡ lit "86 x"
last_user_message_span-slice_example =
    last_user_message_span-slice messages 0 4 (lit "86 x") messages-IsTerminated messages_span

-- What the stripping gives at a marker without an end.
strip_unterminated :
    strip_file_vault_markers (lit "a[[sp:v=r]]b[[sp:v=") ≡ (lit "ab[[sp:v=", lit "r" ∷ [])
unfolding strip_file_vault_markers find starts_with
strip_unterminated = refl
