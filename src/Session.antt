-- ===== src/Session.antt =====
-- secureprompt-api/src/http/middleware/jwt_auth.rs: who is let in with an access token, while the
-- session store answers and while it does not. The decoding of tokens, the clock and what Redis and
-- Postgres answer are arguments.
pub mod Gates
mod Tests
use secureprompt.Prelude.{
  ℕ, zero, suc, ◌-◌, Bool, true, false, not, Option, none, some, List, [], ◌∷◌, drop, length, ltb,
  if◌then◌else◌, nat_keyed,
}
use secureprompt.Prelude.Int.{ℤ, ltb_ℤ}
use secureprompt.Text.{Str, lit, starts_with}
use secureprompt.Map.{Map, lookup, insert}
use secureprompt.Types.{Uuid, WorkspaceId, ApiError, Result, ok, err, panic}
use secureprompt.Roles.{UserRole, from_db_str}

pub record Claims : Type 0 where
  pub sub : Uuid
  pub ws : Uuid
  pub role : Str
  pub iat : ℤ
  pub exp : ℤ
  pub jti : Str
  pub purpose : Option Str

pub record JwtAuthContext : Type 0 where
  pub user_id : Uuid
  pub workspace_id : WorkspaceId
  pub role : UserRole
  pub jti : Str
  pub exp : ℤ

-- `cached_at` is in seconds of the clock that only goes forward.
pub record CachedAuthEntry : Type 0 where
  pub user_id : Uuid
  pub workspace_id : WorkspaceId
  pub role : UserRole
  pub cached_at : ℕ

abbrev pub degraded_auth_cache_ttl_secs : ℕ
degraded_auth_cache_ttl_secs = 60

abbrev pub cached_session_usable : ℕ → Bool
cached_session_usable age_secs = ltb age_secs degraded_auth_cache_ttl_secs

pub data AuthOutage : Type 0 where
  revoked_durably session_store_lost no_warm_session logout_unverifiable : AuthOutage

unfoldable pub auth_outage_name : AuthOutage → Str
auth_outage_name AuthOutage.revoked_durably = lit "revoked_durably"
auth_outage_name AuthOutage.session_store_lost = lit "session_store_lost"
auth_outage_name AuthOutage.no_warm_session = lit "no_warm_session"
auth_outage_name AuthOutage.logout_unverifiable = lit "logout_unverifiable"

abbrev pub invalid_credentials : ApiError
invalid_credentials = ApiError.unauthorized (lit "Invalid credentials")

abbrev pub temporarily_unavailable : ApiError
temporarily_unavailable = ApiError.service_unavailable (lit "auth service temporarily unavailable")

unfoldable pub auth_refusal : AuthOutage → ApiError
auth_refusal AuthOutage.revoked_durably = invalid_credentials
auth_refusal AuthOutage.session_store_lost = temporarily_unavailable
auth_refusal AuthOutage.no_warm_session = temporarily_unavailable
auth_refusal AuthOutage.logout_unverifiable = temporarily_unavailable

pub data AuthGate : Type 0 where
  block : AuthOutage → AuthGate
  degrade : AuthOutage → AuthGate

pub data DurableRevocation : Type 0 where
  known : Option ℤ → DurableRevocation
  unavailable : DurableRevocation

pub data SessionGate : Type 0 where
  proceed reject_logged_out reject_revoked : SessionGate

unfoldable pub session_gate : Bool → Option ℤ → ℤ → SessionGate
session_gate jti_blacklisted none token_iat =
    if jti_blacklisted then SessionGate.reject_logged_out else SessionGate.proceed
session_gate jti_blacklisted (some watermark) token_iat =
    if jti_blacklisted
    then SessionGate.reject_logged_out
    else if not (ltb_ℤ watermark token_iat)
    then SessionGate.reject_revoked
    else SessionGate.proceed

abbrev pub warm_gate : Option ℕ → AuthGate
warm_gate none = AuthGate.block AuthOutage.no_warm_session
warm_gate (some age) =
    if cached_session_usable age
    then AuthGate.degrade AuthOutage.logout_unverifiable
    else AuthGate.block AuthOutage.no_warm_session

unfoldable pub degraded_auth_gate : DurableRevocation → ℤ → Option ℕ → AuthGate
degraded_auth_gate DurableRevocation.unavailable token_iat age =
    AuthGate.block AuthOutage.session_store_lost
degraded_auth_gate (DurableRevocation.known watermark) token_iat age =
    elim (session_gate false watermark token_iat) [
      | SessionGate.proceed ↦ warm_gate age
      | SessionGate.reject_logged_out ↦ AuthGate.block AuthOutage.revoked_durably
      | SessionGate.reject_revoked ↦ AuthGate.block AuthOutage.revoked_durably
    ]

-- `is_access_claims`
abbrev pub is_access_claims : Claims → Bool
is_access_claims claims = elim claims.purpose [ none ↦ true | some p ↦ false ]

-- `extract_bearer`, of the header's text where there is one in ASCII.
unfoldable pub extract_bearer : Option Str → Option Str
extract_bearer none = none
extract_bearer (some value) =
    if starts_with (lit "Bearer ") value then some (drop (length (lit "Bearer ")) value) else none

-- What is answered around one request: the second, the verification and decoding of a token, the
-- two gates in Redis (`none` for an error), and the watermark in Postgres (`none` for an error).
pub record Around : Type 0 where
  pub now : ℕ
  pub decode : Str → Option Claims
  pub session_gates : Option (Bool × Option ℤ)
  pub latest_watermark : Option (Option ℤ)

-- The request goes on with this context, and with the marker where it is served without the gates;
-- or it is refused.
pub data Admission : Type 0 where
  admitted : JwtAuthContext → Option AuthOutage → Admission
  refused : ApiError → Admission

abbrev pub AuthCache : Type 0
AuthCache = Map Uuid CachedAuthEntry

abbrev pub context_of : Claims → UserRole → JwtAuthContext
context_of claims role = record {
  user_id = claims.sub;
  workspace_id = claims.ws;
  role = role;
  jti = claims.jti;
  exp = claims.exp;
}

abbrev pub durable_of : Option (Option ℤ) → DurableRevocation
durable_of none = DurableRevocation.unavailable
durable_of (some watermark) = DurableRevocation.known watermark

abbrev pub age_of : ℕ → Option CachedAuthEntry → Option ℕ
age_of now none = none
age_of now (some entry) = some (now - entry.cached_at)

-- The end of the degraded path, by the gate and the role that the claims name.
abbrev pub degraded_answer : Claims → AuthGate → Result UserRole → Admission
degraded_answer claims (AuthGate.block reason) role = refused (auth_refusal reason)
degraded_answer claims (AuthGate.degrade reason) (ok role) =
    admitted (context_of claims role) (some reason)
degraded_answer claims (AuthGate.degrade reason) (err e) = refused invalid_credentials
degraded_answer claims (AuthGate.degrade reason) panic = refused invalid_credentials

unfoldable pub serve_degraded : Around → Claims → AuthCache → Admission
serve_degraded around claims cache =
    degraded_answer claims
      (degraded_auth_gate (durable_of around.latest_watermark) claims.iat
        (age_of around.now (lookup claims.sub cache)))
      (from_db_str claims.role)

-- The end of the ordinary path: the cache is written for a role that can be read.
abbrev pub gated_answer :
    ℕ → Claims → SessionGate → Result UserRole → AuthCache → Admission × AuthCache
gated_answer now claims SessionGate.proceed (ok role) cache = (
  admitted (context_of claims role) none,
  insert claims.sub
      (record { user_id = claims.sub; workspace_id = claims.ws; role = role; cached_at = now })
      cache,
)
gated_answer now claims SessionGate.proceed (err e) cache = (refused invalid_credentials, cache)
gated_answer now claims SessionGate.proceed panic cache = (refused invalid_credentials, cache)
gated_answer now claims SessionGate.reject_logged_out role cache =
    (refused invalid_credentials, cache)
gated_answer now claims SessionGate.reject_revoked role cache = (refused invalid_credentials, cache)

unfoldable pub judged : Around → Claims → AuthCache → Admission × AuthCache
judged around claims cache =
    if not (is_access_claims claims)
    then (refused invalid_credentials, cache)
    else elim around.session_gates [
      | none ↦ (serve_degraded around claims cache, cache)
      | some gates ↦
          gated_answer around.now claims (session_gate gates.0 gates.1 claims.iat)
            (from_db_str claims.role) cache
    ]

abbrev pub claims_of : (Str → Option Claims) → Option Str → Option Claims
claims_of decode none = none
claims_of decode (some token) = decode token

-- `require`, by the text of the `Authorization` header.
unfoldable pub require : Around → Option Str → AuthCache → Admission × AuthCache
require around header cache = elim (claims_of around.decode (extract_bearer header)) [
  | none ↦ (refused invalid_credentials, cache)
  | some claims ↦ judged around claims cache
]
