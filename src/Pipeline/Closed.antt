-- ===== src/Pipeline/Closed.antt =====
-- secureprompt-api/src/pipeline/service.rs, `prepare`, and the policy on an ML sidecar that does not
-- answer: refusing what was not scanned.
use secureprompt.Prelude.{◌≡◌, ◌≢◌, refl, ap, Option, none, some, beq_ne, nat_keyed, list_keyed}
use secureprompt.Text.{Str, lit}
use secureprompt.Types.{Float, Result, ok, err, panic, TokenVault}
use secureprompt.Vault.{Casing}
use secureprompt.Policy.{Json, Regex}
use secureprompt.Pipeline.Coverage.{
  SidecarCoverage, CoverageLoss, SidecarUnavailablePolicy, from_coverage, from_db, sidecar_gate,
  gated, effective_policy, or_block, get_effective, coverage_unavailable,
}
use secureprompt.Pipeline.Prepare.{GatewayConfig, GatewayRequest, Calls, preloaded, prepare}

pub gated-complete :
    (coverage : SidecarCoverage) (policy : SidecarUnavailablePolicy)
    → gated coverage policy ≡ ok none
    → coverage ≡ SidecarCoverage.complete
unfolding gated sidecar_gate
gated-complete SidecarCoverage.complete policy h = refl
gated-complete (SidecarCoverage.partial a b) SidecarUnavailablePolicy.block h = absurd (cc h)
gated-complete (SidecarCoverage.partial a b) SidecarUnavailablePolicy.degrade_with_alert h =
    absurd (cc h)
gated-complete (SidecarCoverage.absent a) SidecarUnavailablePolicy.block h = absurd (cc h)
gated-complete (SidecarCoverage.absent a) SidecarUnavailablePolicy.degrade_with_alert h =
    absurd (cc h)

-- No row and no configuration says to go on without the sidecar.
abbrev pub IsClosed : Result (Option Str) → Str → Type 0
IsClosed (ok none) configured = configured ≢ lit "degrade_with_alert"
IsClosed (ok (some value)) configured = value ≢ lit "degrade_with_alert"
IsClosed (err e) configured = Unit
IsClosed panic configured = ⊥

from_db-block :
    (value : Str)
    → value ≢ lit "degrade_with_alert"
    → from_db value ≡ SidecarUnavailablePolicy.block
unfolding from_db
from_db-block value h = rw (beq_ne value (lit "degrade_with_alert") h) refl

effective_policy-IsClosed :
    (row : Result (Option Str)) (configured : Str)
    → IsClosed row configured
    → effective_policy row configured ≡ ok SidecarUnavailablePolicy.block
unfolding effective_policy get_effective or_block
effective_policy-IsClosed (ok none) configured h = ap ok (from_db-block configured h)
effective_policy-IsClosed (ok (some value)) configured h = ap ok (from_db-block value h)
effective_policy-IsClosed (err e) configured h = refl
effective_policy-IsClosed panic configured h = elim h [ ]

gated-block :
    (coverage : SidecarCoverage) (loss : CoverageLoss)
    → from_coverage coverage ≡ some loss
    → gated coverage SidecarUnavailablePolicy.block ≡ err coverage_unavailable
unfolding gated sidecar_gate from_coverage
gated-block (SidecarCoverage.complete) loss h = absurd (cc h)
gated-block (SidecarCoverage.partial a b) loss h = refl
gated-block (SidecarCoverage.absent a) loss h = refl

module _ (j : Json) (u : Casing) (show_score : Float → Str) (r : Regex) (config : GatewayConfig)
    (calls : Calls j) (request : GatewayRequest) where
  abbrev prompt : Str
  prompt = (preloaded j u show_score r config calls request).0

  abbrev vault : TokenVault
  vault = (preloaded j u show_score r config calls request).1

  -- Where the sidecar leaves a part of the prompt unscanned, the request is refused, unless the
  -- workspace's row, or in its absence the configuration, says `degrade_with_alert`: also where
  -- reading the row fails.
  pub prepare_fails_closed :
      (loss : CoverageLoss)
      → from_coverage (calls.coverage prompt) ≡ some loss
      → IsClosed calls.sidecar_policy config.sidecar_unavailable_default
      → prepare j u show_score r config calls request ≡ err coverage_unavailable
  unfolding prepare
  prepare_fails_closed loss lost closed =
      rw (effective_policy-IsClosed calls.sidecar_policy config.sidecar_unavailable_default closed)
        (rw (gated-block (calls.coverage prompt) loss lost) refl)
