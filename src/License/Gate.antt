-- ===== src/License/Gate.antt =====
-- secureprompt-api/src/http/middleware/license_gate.rs: which requests the licence lets through.
use secureprompt.Prelude.{
  Bool, true, false, Option, none, some, List, [], ◌∷◌, ◌++◌, any, if◌then◌else◌,
}
use secureprompt.Prelude.Int.{ℤ}
use secureprompt.Text.{Str, lit, starts_with}
use secureprompt.Prelude.{nat_beq, length, drop}
use secureprompt.Types.{ApiError, forbidden}
use secureprompt.License.State.{LicenseState, is_hard_stale}

pub data LicenseOutage : Type 0 where
  revoked revalidation_lost : LicenseOutage

-- `LicenseOutage::as_str` and `refusal`
abbrev pub outage_name : LicenseOutage → Str
outage_name revoked = lit "license_revoked"
outage_name revalidation_lost = lit "license_revalidation_lost"

-- The dash U+2014.
abbrev dash : Str
dash = 226 ∷ 128 ∷ 148 ∷ []

abbrev pub refusal : LicenseOutage → Str
refusal revoked = lit "license revoked " ++ (dash ++ lit " contact your vendor")
refusal revalidation_lost =
    lit "license requires revalidation "
    ++ (dash ++ lit " gateway could not reach the license server")

pub data LicenseGate : Type 0 where
  proceed : LicenseGate
  block : LicenseOutage → LicenseGate
  degrade : LicenseOutage → LicenseGate

abbrev pub recovery_allowlist : List Str
recovery_allowlist =
    lit "/health"
    ∷ lit "/metrics"
    ∷ lit "/openapi.json"
    ∷ lit "/v1/auth"
    ∷ lit "/internal"
    ∷ lit "/v1/license"
    ∷ []

-- `trim_end_matches('/')`
unfoldable pub trim_slashes : Str → Str
trim_slashes [] = []
trim_slashes (b ∷ s) = elim (trim_slashes s) [
  | [] ↦ if nat_beq b 47 then [] else b ∷ []
  | c ∷ rest ↦ b ∷ c ∷ rest
]

unfoldable pub strip_prefix : Str → Str → Option Str
strip_prefix s pat = if starts_with pat s then some (drop (length pat) s) else none

unfoldable pub is_under : Str → Str → Bool
is_under path entry = elim (strip_prefix path (trim_slashes entry)) [
  | none ↦ false
  | some [] ↦ true
  | some (b ∷ rest) ↦ nat_beq b 47
]

unfoldable pub is_allowlisted : Str → Bool
is_allowlisted path = any (λ entry. is_under path entry) recovery_allowlist

unfoldable pub license_gate : Bool → Bool → Str → LicenseGate
license_gate is_revoked hard_stale path =
    if is_allowlisted path
    then proceed
    else if is_revoked
    then block revoked
    else if hard_stale
    then degrade revalidation_lost
    else proceed

-- What `enforce` makes of the request: the answer of the next layer, with or without the header
-- `x-secureprompt-license-degraded`, or a refusal.
pub data Answer {ℓ} (Response : Type ℓ) : Type ℓ where
  served : Response → Answer Response
  served_degraded : Str → Response → Answer Response
  refused : ApiError → Answer Response

unfoldable pub enforce {ℓ} :
    {Response : Type ℓ} → ℤ → LicenseState → Str → Response → Answer Response
enforce now state path next = elim (license_gate state.is_revoked (is_hard_stale now state) path) [
  | proceed ↦ served next
  | block reason ↦ refused (forbidden (refusal reason))
  | degrade reason ↦ served_degraded (outage_name reason) next
]
