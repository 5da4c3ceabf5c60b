-- ===== src/Sidecar/Checks.antt =====
-- `injection_check_if_available` and `rag_check_if_available` of
-- secureprompt-api/src/ml_sidecar/client.rs, with the answer, the clock and what other tasks do to the
-- circuit as arguments.
use secureprompt.Prelude.{ℕ, Bool, false, not, ◌&&◌, ◌||◌, none, some, List, [], if◌then◌else◌}
use secureprompt.Text.{Str}
use secureprompt.Types.{Float}
use secureprompt.Pipeline.{InjectionResponse}
use secureprompt.Pipeline.Coverage.{SidecarOutage, SidecarCoverage}
use secureprompt.Sidecar.Breaker.{is_open, record_success}
use secureprompt.Sidecar.Detect.{
  MlSidecarClient, Live, Answer, not_sent, responded, Turn, with_circuit, is_client_error,
  is_server_error, failure, success, not_available,
}

pub record InjectionOutcome : Type 0 where
  pub response : InjectionResponse
  pub coverage : SidecarCoverage

abbrev pub injection_absent : SidecarCoverage → InjectionOutcome
injection_absent coverage = record {
  response = record { is_injection = false; score = Float.finite false 0 };
  coverage = coverage;
}

-- `injection_check_if_available`, by the answer.
unfoldable pub ended_injection : ℕ → Answer InjectionResponse → Live → InjectionOutcome × Live
ended_injection now not_sent live =
    (injection_absent (SidecarCoverage.absent SidecarOutage.all_calls_failed), failure now live)
ended_injection now (responded status body) live =
    if is_client_error status || is_server_error status
    then (injection_absent (SidecarCoverage.absent SidecarOutage.all_calls_failed), live)
    else elim body [
      | none ↦ (
        injection_absent (SidecarCoverage.absent SidecarOutage.all_calls_failed),
        failure now live,
      )
      | some out ↦ (record { response = out; coverage = SidecarCoverage.complete }, success live)
    ]

unfoldable pub injection_check_if_available :
    MlSidecarClient → Turn InjectionResponse → Str → Live → InjectionOutcome × Live
injection_check_if_available client turn prompt live =
    if not (client.connected && client.enabled)
    then (injection_absent (not_available client), live)
    else let (open_now, circuit) = is_open turn.looked live.circuit in
      let live' = record live { circuit = circuit } in
      if open_now
      then (injection_absent (SidecarCoverage.absent SidecarOutage.circuit_open), live')
      else ended_injection turn.ended (turn.answer prompt) (with_circuit turn.during live')

pub record RagCheckMatch : Type 0 where
  pub rule_id : Str
  pub score : Float

pub record RagCheckResponse : Type 0 where
  pub matches : List RagCheckMatch
  pub is_match : Bool

abbrev pub no_match : RagCheckResponse
no_match = record { matches = []; is_match = false }

-- `rag_check_if_available`, by the answer, whose status is not looked at.
unfoldable pub ended_rag : ℕ → Answer RagCheckResponse → Live → RagCheckResponse × Live
ended_rag now not_sent live = (no_match, failure now live)
ended_rag now (responded status none) live = (no_match, failure now live)
ended_rag now (responded status (some r)) live =
    (r, record live { circuit = record_success live.circuit })

unfoldable pub rag_check_if_available :
    MlSidecarClient → Turn RagCheckResponse → Str → Live → RagCheckResponse × Live
rag_check_if_available client turn text live =
    if not (client.connected && client.enabled)
    then (no_match, live)
    else let (open_now, circuit) = is_open turn.looked live.circuit in
      let live' = record live { circuit = circuit } in
      if open_now
      then (no_match, live')
      else ended_rag turn.ended (turn.answer text) (with_circuit turn.during live')
