-- ===== src/License/Tests.antt =====
-- A vendor whose tokens are the identifiers of licences, and a gateway that runs through a revocation.
use secureprompt.Prelude.{
  ◌≡◌, ◌≢◌, list_beq, list_beq_iff, ◌≤◌, refl, ◌⊎◌, true, false, ◌==◌, Option, none, some, [],
  arith, list_keyed, nat_keyed, if◌then◌else◌,
}
use secureprompt.Prelude.Int.{pos}
use secureprompt.Text.{Str, lit, starts_with}
use secureprompt.Text.Trim.{trim}
use secureprompt.Types.{ok, forbidden}
use secureprompt.Roles.{admin, require_role}
use secureprompt.Policy.{Json}
use secureprompt.License.Freshness.{classify_offline, offline_for, judge}
use secureprompt.License.State.{
  LicenseState, valid, mark_revoked, new_state, offline_verdict, observe_clock, raw_status,
}
use secureprompt.License.Token.{Vendor, snapshot_from}
use secureprompt.License.Revocation.{
  active, revoked, PollerDeps, Assertions, body, check, check_status, begin_tick, finish_tick,
  poll_tick, check_body, check_signed, issued_epoch,
}
use secureprompt.License.Routes.{Gateway, Access, activated, activate_license, start_license}
use secureprompt.License.Gate.{enforce, refusal, refused, is_allowlisted}
use secureprompt.License.Gate
use secureprompt.License.Clock.{IsClocked, rank, offline_verdict-observe_clock}
use secureprompt.License.Lifecycle.{IsWellFormed}
use secureprompt.License.Steps.{Step, here, next, answers, activates, Reach-IsWellFormed}
use secureprompt.License.Supersede.{IsSuperseded, Step-IsSuperseded}
use secureprompt.License.Recovery.{
  IsInForce, activate_license_recovers, activated_reinstates, finish_tick_late,
}
use secureprompt.License.Polling.{IsCredited, check-IsCredited}

abbrev vendor : Vendor
vendor = record {
  License = Str;
  seats = λ lic. 5;
  features = λ lic. [];
  customer_name = λ lic. lit "Acme";
  not_before = λ lic. lit "start";
  expires_at = λ lic. lit "end";
  wrapped_key = λ lic. [];
  lic_id = λ lic. lic;
  wrapped_attestation_key = λ lic. [];
  image_digests = λ lic. [];
  revalidate_soft_secs = λ lic. some 100;
  revalidate_hard_secs = λ lic. some 300;
  VerifyingKey = Unit;
  parse_vendor_key = λ b64. some tt;
  decode_verified_token = λ token vk. some token;
  parse_rfc3339 = λ s. if s == lit "start" then some (pos 1000) else some (pos 9000);
  Kek = Unit;
  SigningKey = Str;
  unwrap_signing_key = λ kek wrapped aad. none;
}

-- The vendor that answers `Revoked` to every question.
abbrev strict : PollerDeps
strict = record {
  World = Unit;
  ask_status = λ id world. ((revoked, none), world);
  save_freshness = λ id assertion now world. (none, world);
}

abbrev first_state : LicenseState
first_state = new_state (snapshot_from vendor (lit "A") valid)

abbrev running : Gateway
running = record { license = first_state; activation = some (lit "A") }

abbrev blocked : Gateway
blocked = record { license = mark_revoked (lit "A") first_state; activation = some (lit "A") }

abbrev access : Access
access = record { env_token = lit "A"; read_fails = false; write_error = none }

first_state-IsClocked : IsClocked first_state
first_state-IsClocked = omega arith

offline_verdict-observe_clock_example :
    rank (offline_verdict (pos 1400) first_state)
    ≤ rank (offline_verdict (pos 1010) (observe_clock (pos 1400) first_state))
unfolding snapshot_from
offline_verdict-observe_clock_example =
    offline_verdict-observe_clock first_state (pos 1400) (pos 1010) first_state-IsClocked
      (omega arith) (omega arith) (omega arith)

-- Rolled back, the clock still shows 400 seconds.
rolled_back : rank (offline_verdict (pos 1010) (observe_clock (pos 1400) first_state)) ≡ 2
unfolding rank offline_verdict observe_clock classify_offline offline_for judge snapshot_from
rolled_back = refl

-- The gateway after the vendor's answer.
abbrev answered : Gateway
answered = record running {
  license = (finish_tick strict (lit "A") (revoked, none) (pos 1200) running.license tt).0;
}

abbrev started : Gateway
started = record {
  license =
      start_license vendor (some tt) (pos 1100) access (some (lit "A"))
        (λ id. some (pos 900, pos 950));
  activation = some (lit "A");
}

abbrev after_answer : Gateway
after_answer = record started {
  license = (finish_tick strict (lit "A") (revoked, none) (pos 1200) started.license tt).0;
}

Reach-IsWellFormed_example : IsWellFormed after_answer.license
Reach-IsWellFormed_example =
    Reach-IsWellFormed vendor strict (some tt) (pos 1100) access (some (lit "A"))
      (λ id. some (pos 900, pos 950)) after_answer
      (next here (answers (lit "A") (revoked, none) (pos 1200) tt refl))

abbrev pasted : Gateway
pasted = (activate_license vendor admin (some tt) (lit "B") (pos 1300) access blocked).1

abbrev pasting : Step vendor strict blocked pasted
pasting = activates admin (some tt) (lit "B") (pos 1300) access refl

Step-IsSuperseded_example :
    (pasted.license.is_revoked ≡ true) ⊎ IsSuperseded vendor strict blocked pasted pasting
unfolding mark_revoked
Step-IsSuperseded_example = Step-IsSuperseded vendor strict blocked pasted pasting refl

text_ne : (a b : Str) → list_beq a b ≡ false → a ≢ b
text_ne a b e p = ground (arith, e, p, list_beq_iff a b)

some_ne : (a b : Str) → list_beq a b ≡ false → some a ≢ some b
some_ne a b e p = text_ne a b e (cc p)

token_B : IsInForce vendor (lit "B") tt (pos 1300) (lit "B")
unfolding trim
token_B = record {
  nb = pos 1000;
  exp = pos 9000;
  trimmed = refl;
  nonempty = refl;
  signed = refl;
  not_before = refl;
  expires_at = refl;
  begun = refl;
  unexpired = refl;
}

token_A : IsInForce vendor (lit "A") tt (pos 1300) (lit "A")
unfolding trim
token_A = record {
  nb = pos 1000;
  exp = pos 9000;
  trimmed = refl;
  nonempty = refl;
  signed = refl;
  not_before = refl;
  expires_at = refl;
  begun = refl;
  unexpired = refl;
}

blocked-IsWellFormed : IsWellFormed blocked.license
unfolding mark_revoked snapshot_from
blocked-IsWellFormed = record { named = refl; identified = refl }

activate_license_recovers_example :
    let (answer, after) =
      activate_license vendor admin (some tt) (lit "B") (pos 1300) access blocked in
    (answer ≡ ok tt)
    × (after.license.is_revoked ≡ false)
    × (raw_status after.license ≡ valid)
    × (begin_tick after.license ≡ check_status (lit "B"))
unfolding require_role mark_revoked
activate_license_recovers_example =
    activate_license_recovers vendor (lit "B") tt (pos 1300) (lit "B") blocked admin access
      blocked-IsWellFormed refl refl token_B (some_ne (lit "A") (lit "B") refl)

activated_reinstates_example :
    let after =
      activated vendor (lit "A") tt (pos 1300) (activated vendor (lit "B") tt (pos 1300) blocked) in
    (after.license.is_revoked ≡ false)
    × (after.license.inner ≡ snapshot_from vendor (lit "A") valid)
unfolding mark_revoked
activated_reinstates_example =
    activated_reinstates vendor tt (pos 1300) (lit "A") (lit "B") (lit "A") (lit "B") blocked
      blocked-IsWellFormed refl token_A token_B (text_ne (lit "A") (lit "B") refl)

finish_tick_late_example :
    let after =
      (finish_tick strict
        (lit "A")
        (revoked, none)
        (pos 1300)
        (activated vendor (lit "B") tt (pos 1300) running).license
        tt).0 in
    (after.inner ≡ snapshot_from vendor (lit "B") valid)
    × (enforce {Response = Unit {0}} (pos 1300) after (lit "/v1/chat") tt
        ≡ refused (forbidden (refusal Gate.revoked)))
unfolding begin_tick poll_tick snapshot_from is_allowlisted Gate.is_under Gate.strip_prefix
    starts_with Gate.trim_slashes
finish_tick_late_example =
    finish_tick_late vendor strict tt (pos 1300) (lit "B") (lit "/v1/chat") (lit "A") (lit "B")
      running none tt refl token_B (text_ne (lit "B") (lit "A") refl) refl

-- `/v1/license-keys` is not on the list.
keys_gated : is_allowlisted (lit "/v1/license-keys") ≡ false
unfolding is_allowlisted Gate.is_under Gate.strip_prefix starts_with Gate.trim_slashes
keys_gated = refl

-- Documents of two kinds: a text, and an object with an assertion and a signature.
data Doc : Type 0 where
  text : Str → Doc
  signed_by : Str → Str → Doc

abbrev docs : Json
docs = record {
  Value = Doc;
  get = λ doc name. field_of doc name;
  as_str = λ doc. text_of doc;
  as_array = λ doc. none;
  as_f64 = λ doc. none;
}
  where
    field_of : Doc → Str → Option Doc
    field_of (text s) name = none
    field_of (signed_by a s) name =
        if name == lit "assertion"
        then some (text a)
        else if name == lit "sig"
        then some (text s)
        else none

    text_of : Doc → Option Str
    text_of (text s) = some s
    text_of (signed_by a s) = none

abbrev assertions : Assertions docs
assertions = record {
  FreshnessAssertion = Str;
  from_value = λ doc. docs.as_str doc;
  status = λ a. a;
  issued_at = λ a. a;
  VerifyingKey = Unit;
  verify_assertion = λ vk a sig. sig == lit "ok";
  chrono_rfc3339 = λ s. some (pos 1234);
  parse_rfc3339 = λ s. none;
}

check-IsCredited_example :
    ((check docs assertions tt (body (signed_by (lit "active") (lit "ok")))).0 ≡ active)
    × IsCredited docs assertions tt (body (signed_by (lit "active") (lit "ok"))) (pos 1234)
unfolding check check_body check_signed issued_epoch
check-IsCredited_example =
    check-IsCredited docs assertions tt (body (signed_by (lit "active") (lit "ok"))) (pos 1234) refl
