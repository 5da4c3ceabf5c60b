-- ===== src/Pipeline/Coverage.antt =====
-- secureprompt-api/src/ml_sidecar/types.rs, the policy of db/sidecar_policy_repo.rs, `sidecar_gate`
-- of pipeline/service.rs and http/sidecar_coverage.rs: what becomes of a request whose text the ML
-- sidecar did not scan in full.
use secureprompt.Prelude.{ℕ, Option, none, some, ◌==◌, nat_keyed, list_keyed, if◌then◌else◌}
use secureprompt.Text.{Str, lit}
use secureprompt.Map.{Map, insert}
use secureprompt.Types.{ApiError, Result, ok, err, panic, ◌>>=◌}

pub data SidecarOutage : Type 0 where
  unconfigured disabled circuit_open all_calls_failed : SidecarOutage

pub data SidecarCoverage : Type 0 where
  complete : SidecarCoverage
  partial : (chunks_covered chunks_total : ℕ) → SidecarCoverage
  absent : SidecarOutage → SidecarCoverage

pub data CoverageLoss : Type 0 where
  outage : SidecarOutage → CoverageLoss
  partial : CoverageLoss

pub data SidecarUnavailablePolicy : Type 0 where
  block degrade_with_alert : SidecarUnavailablePolicy

pub data SidecarGate : Type 0 where
  proceed : SidecarGate
  block degrade : CoverageLoss → SidecarGate

unfoldable pub outage_label : SidecarOutage → Str
outage_label SidecarOutage.unconfigured = lit "unconfigured"
outage_label SidecarOutage.disabled = lit "disabled"
outage_label SidecarOutage.circuit_open = lit "circuit_open"
outage_label SidecarOutage.all_calls_failed = lit "all_calls_failed"

unfoldable pub loss_label : CoverageLoss → Str
unfolding outage_label
loss_label (CoverageLoss.outage reason) = outage_label reason
loss_label CoverageLoss.partial = lit "partial_coverage"

unfoldable pub from_coverage : SidecarCoverage → Option CoverageLoss
from_coverage SidecarCoverage.complete = none
from_coverage (SidecarCoverage.partial covered total) = some CoverageLoss.partial
from_coverage (SidecarCoverage.absent reason) = some (CoverageLoss.outage reason)

-- `SidecarUnavailablePolicy::from_db`
unfoldable pub from_db : Str → SidecarUnavailablePolicy
from_db value =
    if value == lit "degrade_with_alert"
    then SidecarUnavailablePolicy.degrade_with_alert
    else SidecarUnavailablePolicy.block

unfoldable pub policy_label : SidecarUnavailablePolicy → Str
policy_label SidecarUnavailablePolicy.block = lit "block"
policy_label SidecarUnavailablePolicy.degrade_with_alert = lit "degrade_with_alert"

unfoldable pub sidecar_gate : SidecarCoverage → SidecarUnavailablePolicy → SidecarGate
unfolding from_coverage
sidecar_gate coverage policy = elim (from_coverage coverage) [
  | none ↦ SidecarGate.proceed
  | some loss ↦ elim policy [
    | SidecarUnavailablePolicy.block ↦ SidecarGate.block loss
    | SidecarUnavailablePolicy.degrade_with_alert ↦ SidecarGate.degrade loss
  ]
]

-- `get`, of the column that the query reads, and `get_effective`.
unfoldable pub get_effective :
    Result (Option Str) → SidecarUnavailablePolicy → Result SidecarUnavailablePolicy
unfolding from_db
get_effective row deployment_default =
    row >>= (λ found. elim found [ none ↦ ok deployment_default | some value ↦ ok (from_db value) ])

-- `unwrap_or_else` with the default policy, which is `block`.
unfoldable pub or_block : Result SidecarUnavailablePolicy → Result SidecarUnavailablePolicy
or_block (ok policy) = ok policy
or_block (err e) = ok SidecarUnavailablePolicy.block
or_block panic = panic

-- The row of the workspace, and `sidecar_unavailable_default` of the configuration.
unfoldable pub effective_policy : Result (Option Str) → Str → Result SidecarUnavailablePolicy
unfolding or_block get_effective from_db
effective_policy row configured = or_block (get_effective row (from_db configured))

abbrev pub coverage_unavailable : ApiError
coverage_unavailable = ApiError.service_unavailable (
    lit
      "PII detection coverage is unavailable for this request and the workspace is configured to fail closed")

-- What a gate makes of the request: refused, or with the reason why it is degraded.
unfoldable pub gated : SidecarCoverage → SidecarUnavailablePolicy → Result (Option CoverageLoss)
unfolding sidecar_gate
gated coverage policy = elim (sidecar_gate coverage policy) [
  | SidecarGate.proceed ↦ ok none
  | SidecarGate.block reason ↦ err coverage_unavailable
  | SidecarGate.degrade reason ↦ ok (some reason)
]

unfoldable pub enforce : Result (Option Str) → Str → SidecarCoverage → Result (Option CoverageLoss)
unfolding effective_policy gated
enforce row configured coverage =
    effective_policy row configured >>= (λ policy. gated coverage policy)

-- The headers of the response.
unfoldable pub with_sidecar_degraded : Map Str Str → Option CoverageLoss → Map Str Str
unfolding loss_label insert
with_sidecar_degraded headers none = headers
with_sidecar_degraded headers (some reason) =
    insert (lit "x-secureprompt-sidecar-degraded") (loss_label reason) headers
