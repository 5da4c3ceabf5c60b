-- ===== src/Policy.antt =====
-- secureprompt-api/src/policy and the row type of secureprompt-api/src/db/policy_repo.rs: the
-- rules, and what one evaluation is given. `serde_json` and `regex` are not the program's own code:
-- their operations are the fields of `Json` and of `Regex`.
mod Tests
pub mod Conditions
pub mod Engine
pub mod Matching
pub mod Classes
pub mod Deciding
pub mod Outcome
use secureprompt.Prelude.{Bool, Option, List}
use secureprompt.Text.{Str}
use secureprompt.Types.{Float, Uuid, WorkspaceId, RequestId, Detection}

-- `serde_json::Value` with the accessors that the engine calls.
pub record Json : Type 1 where
  pub Value : Type 0
  pub get : Value → Str → Option Value
  pub as_str : Value → Option Str
  pub as_array : Value → Option (List Value)
  pub as_f64 : Value → Option Float

-- `Regex::new(pattern)`, then `is_match(text)`; `none` for a pattern that does not compile.
pub record Regex : Type 0 where
  pub is_match : (pattern text : Str) → Option Bool

-- The columns that the engine reads, of a row of `policy_rules`.
pub record PolicyRuleRow (j : Json) : Type 0 where
  pub id : Uuid
  pub name : Str
  pub conditions : j.Value
  pub action : Str
  pub action_params : j.Value
  pub enabled : Bool
  pub dry_run : Bool

pub record PolicyEvaluationInput : Type 0 where
  pub request_id : RequestId
  pub workspace_id : WorkspaceId
  pub provider_name : Str
  pub model : Str
  pub content : Str
  pub detections : List Detection
  pub fail_closed : Bool
