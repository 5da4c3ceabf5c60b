-- ===== src/Pipeline.antt =====
-- secureprompt-api/src/pipeline/service.rs: what happens to a request before a provider sees it, and
-- what the calls of the ML sidecar (secureprompt-api/src/ml_sidecar/types.rs) say of their coverage.
-- Audit rows, metrics and logging are left out.
mod Tests
pub mod Coverage
pub mod Markers
pub mod Secure
pub mod Prepare
pub mod Net
pub mod Levels
pub mod Stages
pub mod Safety
pub mod Closed
pub mod Enforced
pub mod Downgrade
pub mod Stripping
pub mod Audit
pub mod Offsets
pub mod Lines
use secureprompt.Prelude.{ℕ, ◌*◌, ◌^◌, Bool, false, Option, List}
use secureprompt.Text.{Str}
use secureprompt.Map.{Map}
use secureprompt.Types.{Float, Uuid, Detection, PolicyEvent, TokenVault}

pub record PipelineState : Type 0 where
  pub vault : TokenVault
  pub detections : List Detection
  pub policy_events : List PolicyEvent
  pub redaction_map : Map Str Str

-- The columns of `secure_mode` that the pipeline reads.
pub record SecureModeRow : Type 0 where
  pub enabled : Bool
  pub level : Str
  pub block_on_pii_detection : Bool
  pub block_on_injection_detection : Bool
  pub redact_pii_in_responses : Bool

pub record InjectionResponse : Type 0 where
  pub is_injection : Bool
  pub score : Float

-- The `f32` next to 0.99: 16609444 * 2^-24.
abbrev pub injection_block_threshold : Float
injection_block_threshold = Float.finite false (16609444 * 2 ^ 1050)
