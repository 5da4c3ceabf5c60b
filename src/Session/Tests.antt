-- ===== src/Session/Tests.antt =====
-- Requests with one token, whose user was verified at second 100, while the session store is down.
use secureprompt.Prelude.{ℕ, ◌+◌, ◌≤◌, ◌≡◌, refl, none, some, Option, [], ◌∷◌, arith, nat_keyed}
use secureprompt.Prelude.Int.{pos}
use secureprompt.Text.{Str, lit, starts_with}
use secureprompt.Types.{Uuid, ApiError}
use secureprompt.Map.{lookup}
use secureprompt.Roles.{UserRole, from_db_str}
use secureprompt.Session.{
  Claims, CachedAuthEntry, AuthOutage, Around, Admission, AuthCache, context_of, require, judged,
  extract_bearer, claims_of, serve_degraded, degraded_auth_gate, session_gate,
}
use secureprompt.Session.Gates.{IsAdmitted, require-IsAdmitted, require_cold, cache_after}

abbrev alice : Claims
alice = record {
  sub = 7;
  ws = 1;
  role = lit "viewer";
  iat = pos 50;
  exp = pos 9000;
  jti = lit "j";
  purpose = none;
}

abbrev down_at : ℕ → Around
down_at now = record {
  now = now;
  decode = λ token. some alice;
  session_gates = none;
  latest_watermark = some (some (pos 40));
}

abbrev bearer : Option Str
bearer = some (lit "Bearer x")

abbrev verified_entry : CachedAuthEntry
verified_entry = record { user_id = 7; workspace_id = 1; role = UserRole.viewer; cached_at = 100 }

abbrev warm : AuthCache
warm = (7, verified_entry) ∷ []

let_in_at_159 :
    (require (down_at 159) bearer warm).0
    ≡ Admission.admitted (context_of alice UserRole.viewer) (some AuthOutage.logout_unverifiable)
unfolding require judged extract_bearer starts_with serve_degraded degraded_auth_gate session_gate
    lookup from_db_str
let_in_at_159 = refl

require-IsAdmitted_example :
    (claims : Claims) × (claims_of (down_at 159).decode (extract_bearer bearer) ≡ some claims)
    × IsAdmitted (down_at 159) claims warm (context_of alice UserRole.viewer)
require-IsAdmitted_example =
    require-IsAdmitted (down_at 159) bearer warm (context_of alice UserRole.viewer)
      (some AuthOutage.logout_unverifiable) let_in_at_159

warm_old :
    (user : Uuid) (entry : CachedAuthEntry)
    → lookup user warm ≡ some entry
    → entry.cached_at + 60 ≤ 160
unfolding lookup
warm_old user entry h = ground arith

require_cold_example :
    (e : ApiError) × ((require
        (down_at 160)
        bearer
        (cache_after ((down_at 159, bearer) ∷ []) warm)).0
      ≡ Admission.refused e)
require_cold_example =
    require_cold ((down_at 159, bearer) ∷ []) warm (down_at 160) bearer (refl, tt) refl warm_old
