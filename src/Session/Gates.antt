-- ===== src/Session/Gates.antt =====
-- Who is let in: the conditions that hold of every admitted request, and the end of the window in
-- which requests are served without the session store.
use secureprompt.Prelude.{
  ℕ, ◌+◌, ◌-◌, ◌≤◌, ◌<◌, ◌≡◌, inl, inr, refl, sym, ap, subst, ◌∙◌, Bool, true, false, not, Option,
  none, some, List, [], ◌∷◌, if◌then◌else◌, Bool-cases, nat_keyed, arith,
}
use secureprompt.Prelude.Int.{ℤ, ltb_ℤ}
use secureprompt.Text.{Str}
use secureprompt.Map.{lookup}
use secureprompt.Types.{Uuid, ApiError, Result, ok, err, panic}
use secureprompt.Roles.{UserRole, from_db_str}
use secureprompt.Session.{
  Claims, JwtAuthContext, CachedAuthEntry, AuthOutage, AuthGate, DurableRevocation, SessionGate,
  session_gate, degraded_auth_gate, warm_gate, is_access_claims, extract_bearer, Around, Admission,
  AuthCache, context_of, durable_of, age_of, degraded_answer, serve_degraded, gated_answer, judged,
  claims_of, require, invalid_credentials,
}

-- No revocation at this watermark ends a token issued at this second.
abbrev pub NotRevoked : Option ℤ → ℤ → Type 0
NotRevoked none iat = Unit
NotRevoked (some watermark) iat = ltb_ℤ watermark iat ≡ true

-- What the store says of the token, or without it what Postgres and the cache say.
abbrev pub IsLive : Around → Option (Bool × Option ℤ) → Claims → AuthCache → Type 0
IsLive around (some (blacklisted, watermark)) claims cache =
    (blacklisted ≡ false) × NotRevoked watermark claims.iat
IsLive around none claims cache =
    (watermark : Option ℤ) × (entry : CachedAuthEntry) × (around.latest_watermark ≡ some watermark)
    × NotRevoked watermark claims.iat
    × (lookup claims.sub cache ≡ some entry)
    × (around.now < entry.cached_at + 60)

session_gate-proceed :
    (b : Bool) (w : Option ℤ) (iat : ℤ)
    → session_gate b w iat ≡ SessionGate.proceed
    → (b ≡ false) × NotRevoked w iat
unfolding session_gate
session_gate-proceed true none iat h = absurd (ground arith)
session_gate-proceed false none iat h = (refl, tt)
session_gate-proceed true (some w) iat h = absurd (ground arith)
session_gate-proceed false (some w) iat h = elim (Bool-cases (ltb_ℤ w iat)) [
  | inl later ↦ (refl, later)
  | inr ended ↦ absurd (ground arith)
]

warm_proceed :
    (g : SessionGate) (a : ℕ) (reason : AuthOutage)
    → elim g [
      | SessionGate.proceed ↦ warm_gate (some a)
      | SessionGate.reject_logged_out ↦ AuthGate.block AuthOutage.revoked_durably
      | SessionGate.reject_revoked ↦ AuthGate.block AuthOutage.revoked_durably
    ]
      ≡ AuthGate.degrade reason
    → (g ≡ SessionGate.proceed) × (a < 60)
warm_proceed SessionGate.proceed a reason h = (refl, ground arith)
warm_proceed SessionGate.reject_logged_out a reason h = absurd (cc)
warm_proceed SessionGate.reject_revoked a reason h = absurd (cc)

gate-degrade :
    (d : DurableRevocation) (iat : ℤ) (age : Option ℕ) (reason : AuthOutage)
    → degraded_auth_gate d iat age ≡ AuthGate.degrade reason
    → (w : Option ℤ) × (a : ℕ) × (d ≡ DurableRevocation.known w)
      × NotRevoked w iat
      × (age ≡ some a)
      × (a < 60)
unfolding degraded_auth_gate
gate-degrade DurableRevocation.unavailable iat age reason h = absurd (ground arith)
gate-degrade (DurableRevocation.known w) iat none reason h = absurd (ground arith)
gate-degrade (DurableRevocation.known w) iat (some a) reason h =
    let (going, warm) = warm_proceed (session_gate false w iat) a reason h in
    (w, a, refl, (session_gate-proceed false w iat going).1, refl, warm)

age-some :
    (now a : ℕ) (o : Option CachedAuthEntry)
    → age_of now o ≡ some a
    → (entry : CachedAuthEntry) × (o ≡ some entry) × (now - entry.cached_at ≡ a)
age-some now a none h = absurd (cc)
age-some now a (some entry) h = (entry, refl, cc)

durable-known :
    (o : Option (Option ℤ)) (w : Option ℤ) → durable_of o ≡ DurableRevocation.known w → o ≡ some w
durable-known none w h = absurd (cc)
durable-known (some v) w h = cc

degraded_answer-admitted :
    (claims : Claims) (g : AuthGate) (role : Result UserRole) (ctx : JwtAuthContext)
    (mark : Option AuthOutage)
    → degraded_answer claims g role ≡ Admission.admitted ctx mark
    → (reason : AuthOutage) × (r : UserRole) × (g ≡ AuthGate.degrade reason)
      × (role ≡ ok r)
      × (ctx ≡ context_of claims r)
degraded_answer-admitted claims (AuthGate.block reason) role ctx mark h = absurd (cc)
degraded_answer-admitted claims (AuthGate.degrade reason) (ok r) ctx mark h =
    (reason, r, refl, refl, cc)
degraded_answer-admitted claims (AuthGate.degrade reason) (err e) ctx mark h = absurd (cc)
degraded_answer-admitted claims (AuthGate.degrade reason) panic ctx mark h = absurd (cc)

gated_answer-admitted :
    (now : ℕ) (claims : Claims) (g : SessionGate) (role : Result UserRole) (cache : AuthCache)
    (ctx : JwtAuthContext) (mark : Option AuthOutage)
    → (gated_answer now claims g role cache).0 ≡ Admission.admitted ctx mark
    → (r : UserRole) × (g ≡ SessionGate.proceed) × (role ≡ ok r) × (ctx ≡ context_of claims r)
gated_answer-admitted now claims SessionGate.proceed (ok r) cache ctx mark h = (r, refl, refl, cc)
gated_answer-admitted now claims SessionGate.proceed (err e) cache ctx mark h = absurd (cc)
gated_answer-admitted now claims SessionGate.proceed panic cache ctx mark h = absurd (cc)
gated_answer-admitted now claims SessionGate.reject_logged_out role cache ctx mark h = absurd (cc)
gated_answer-admitted now claims SessionGate.reject_revoked role cache ctx mark h = absurd (cc)

-- An admitted token is for access and live, and its context is its own.
pub record IsAdmitted (around : Around) (claims : Claims) (cache : AuthCache) (ctx : JwtAuthContext)
    : Type 0 where
  pub for_access : claims.purpose ≡ none
  pub live : IsLive around around.session_gates claims cache
  pub role_read : from_db_str claims.role ≡ ok ctx.role
  pub own : ctx ≡ context_of claims ctx.role

serve_degraded-IsLive :
    (around : Around) (claims : Claims) (cache : AuthCache) (ctx : JwtAuthContext)
    (mark : Option AuthOutage)
    → serve_degraded around claims cache ≡ Admission.admitted ctx mark
    → IsLive around none claims cache
      × (from_db_str claims.role ≡ ok ctx.role)
      × (ctx ≡ context_of claims ctx.role)
unfolding serve_degraded
serve_degraded-IsLive around claims cache ctx mark h =
    let (reason, r, gate, role, own) =
      degraded_answer-admitted claims _ (from_db_str claims.role) ctx mark h in
    let (w, a, durable, free, aged, warm) = gate-degrade _ claims.iat _ reason gate in
    let (entry, found, age) = age-some around.now a (lookup claims.sub cache) aged in
    let same : r ≡ ctx.role = ap (λ (c : JwtAuthContext). c.role) (sym own) in
    (
      (w, entry, durable-known around.latest_watermark w durable, free, found, omega arith),
      role ∙ ap ok same,
      own ∙ ap (context_of claims) same,
    )

gated_answer-IsLive :
    (around : Around) (b : Bool) (w : Option ℤ) (claims : Claims) (cache : AuthCache)
    (ctx : JwtAuthContext) (mark : Option AuthOutage)
    → (gated_answer around.now claims
        (session_gate b w claims.iat)
        (from_db_str claims.role)
        cache).0
      ≡ Admission.admitted ctx mark
    → IsLive around (some (b, w)) claims cache
      × (from_db_str claims.role ≡ ok ctx.role)
      × (ctx ≡ context_of claims ctx.role)
gated_answer-IsLive around b w claims cache ctx mark h =
    let (r, going, role, own) =
      gated_answer-admitted around.now claims _ (from_db_str claims.role) cache ctx mark h in
    let same : r ≡ ctx.role = ap (λ (c : JwtAuthContext). c.role) (sym own) in
    (
      session_gate-proceed b w claims.iat going,
      role ∙ ap ok same,
      own ∙ ap (context_of claims) same,
    )

judged_on :
    (around : Around) (gates : Option (Bool × Option ℤ)) (claims : Claims) (cache : AuthCache)
    (ctx : JwtAuthContext) (mark : Option AuthOutage)
    → (elim gates as (λ _. Admission × AuthCache) [
      | none ↦ (serve_degraded around claims cache, cache)
      | some gates ↦
          gated_answer around.now claims
            (session_gate gates.0 gates.1 claims.iat)
            (from_db_str claims.role)
            cache
    ]).0
      ≡ Admission.admitted ctx mark
    → IsLive around gates claims cache
      × (from_db_str claims.role ≡ ok ctx.role)
      × (ctx ≡ context_of claims ctx.role)
judged_on around none claims cache ctx mark h = serve_degraded-IsLive around claims cache ctx mark h
judged_on around (some (b, w)) claims cache ctx mark h =
    gated_answer-IsLive around b w claims cache ctx mark h

access_none :
    (purpose : Option Str) → elim purpose [ none ↦ true | some p ↦ false ] ≡ true → purpose ≡ none
access_none none h = refl
access_none (some p) h = absurd (ground arith)

let_in :
    (b : Bool) (e : ApiError) (cache : AuthCache) (x : Admission × AuthCache) (ctx : JwtAuthContext)
    (mark : Option AuthOutage)
    → (if not b then (Admission.refused e, cache) else x).0 ≡ Admission.admitted ctx mark
    → (b ≡ true) × (x.0 ≡ Admission.admitted ctx mark)
let_in true e cache x ctx mark h = (refl, h)
let_in false e cache x ctx mark h = absurd (cc)

judged-IsAdmitted :
    (around : Around) (claims : Claims) (cache : AuthCache) (ctx : JwtAuthContext)
    (mark : Option AuthOutage)
    → (judged around claims cache).0 ≡ Admission.admitted ctx mark
    → IsAdmitted around claims cache ctx
unfolding judged
judged-IsAdmitted around claims cache ctx mark h =
    let (access, rest) = let_in (is_access_claims claims) invalid_credentials cache _ ctx mark h in
    let (live, role, own) = judged_on around around.session_gates claims cache ctx mark rest in
    record {
      for_access = access_none claims.purpose access;
      live = live;
      role_read = role;
      own = own;
    }

claimed :
    (around : Around) (o : Option Claims) (cache : AuthCache) (ctx : JwtAuthContext)
    (mark : Option AuthOutage)
    → (elim o as (λ _. Admission × AuthCache) [
      | none ↦ (Admission.refused invalid_credentials, cache)
      | some claims ↦ judged around claims cache
    ]).0
      ≡ Admission.admitted ctx mark
    → (claims : Claims) × (o ≡ some claims) × IsAdmitted around claims cache ctx
claimed around none cache ctx mark h = absurd (cc)
claimed around (some claims) cache ctx mark h =
    (claims, refl, judged-IsAdmitted around claims cache ctx mark h)

-- Every request that is let in carries a token that decodes to access claims and is live: the store
-- answered that it is neither logged out nor issued up to a revocation, or, where the store did not
-- answer, Postgres answered that it is not issued up to a revocation and this pod has verified the
-- user less than 60 seconds ago. User, workspace and role are those of the claims.
pub require-IsAdmitted :
    (around : Around) (header : Option Str) (cache : AuthCache) (ctx : JwtAuthContext)
    (mark : Option AuthOutage)
    → (require around header cache).0 ≡ Admission.admitted ctx mark
    → (claims : Claims) × (claims_of around.decode (extract_bearer header) ≡ some claims)
      × IsAdmitted around claims cache ctx
unfolding require
require-IsAdmitted around header cache ctx mark h =
    claimed around (claims_of around.decode (extract_bearer header)) cache ctx mark h

-- The requests, each with what is answered around it, one after the other on one cache.
abbrev pub cache_after : List (Around × Option Str) → AuthCache → AuthCache
cache_after [] cache = cache
cache_after ((around, header) ∷ rest) cache = cache_after rest (require around header cache).1

-- The session store answers none of them.
abbrev pub AllDown : List (Around × Option Str) → Type 0
AllDown [] = Unit
AllDown ((around, header) ∷ rest) = (around.session_gates ≡ none) × AllDown rest

kept_either :
    (b : Bool) (a : Admission) (cache : AuthCache) (x : Admission × AuthCache)
    → x.1 ≡ cache
    → (if b then (a, cache) else x).1 ≡ cache
kept_either true a cache x h = refl
kept_either false a cache x h = h

judged-cache :
    (around : Around) (claims : Claims) (cache : AuthCache)
    → around.session_gates ≡ none
    → (judged around claims cache).1 ≡ cache
unfolding judged
judged-cache around claims cache down =
    kept_either (not (is_access_claims claims)) (Admission.refused invalid_credentials) cache _ (
      ap
        (λ (g : Option (Bool × Option ℤ)).
          (elim g as (λ _. Admission × AuthCache) [
            | none ↦ (serve_degraded around claims cache, cache)
            | some gates ↦
                gated_answer around.now claims (session_gate gates.0 gates.1 claims.iat)
                  (from_db_str claims.role) cache
          ]).1)
        down)

require-cache :
    (around : Around) (header : Option Str) (cache : AuthCache)
    → around.session_gates ≡ none
    → (require around header cache).1 ≡ cache
unfolding require
require-cache around header cache down = on_claims (claims_of around.decode (extract_bearer header))
  where
    on_claims :
        (o : Option Claims)
        → (elim o as (λ _. Admission × AuthCache) [
          | none ↦ (Admission.refused invalid_credentials, cache)
          | some claims ↦ judged around claims cache
        ]).1
          ≡ cache
    on_claims none = refl
    on_claims (some claims) = judged-cache around claims cache down

cache_after-down :
    (requests : List (Around × Option Str)) (cache : AuthCache)
    → AllDown requests
    → cache_after requests cache ≡ cache
cache_after-down [] cache down = refl
cache_after-down ((around, header) ∷ rest) cache down =
    ap (cache_after rest) (require-cache around header cache down.0)
    ∙ cache_after-down rest cache down.1

-- However many requests come while the session store does not answer, none is let in from 60 seconds
-- after the last one that was verified before: the outage does not keep the cache warm.
pub require_cold :
    (requests : List (Around × Option Str)) (cache : AuthCache) (around : Around)
    (header : Option Str)
    → AllDown requests
    → around.session_gates ≡ none
    → ((user : Uuid) (entry : CachedAuthEntry)
        → lookup user cache ≡ some entry
        → entry.cached_at + 60 ≤ around.now)
    → (e : ApiError) × ((require around header (cache_after requests cache)).0
        ≡ Admission.refused e)
require_cold requests cache around header all_down down old =
    rw (cache_after-down requests cache all_down) (cold (require around header cache).0 refl)
  where
    cold :
        (a : Admission)
        → (require around header cache).0 ≡ a
        → (e : ApiError) × (a ≡ Admission.refused e)
    cold (Admission.refused e) h = (e, refl)
    cold (Admission.admitted ctx mark) h =
        let (claims, decoded, granted) = require-IsAdmitted around header cache ctx mark h in
        let (w, entry, durable, free, found, warm) =
          subst (λ g. IsLive around g claims cache) down granted.live in
        absurd (omega (arith, old claims.sub entry found))
