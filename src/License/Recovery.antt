-- ===== src/License/Recovery.antt =====
-- What installing a licence that is in force does to a gateway, whatever its revocation.
use secureprompt.Prelude.{
  ◌≡◌, ◌≢◌, ◌∙◌, refl, sym, ap, inl, inr, true, false, ◌==◌, Bool-cases, Option-cases, Option, none,
  some, arith, list_beq_iff, list_keyed, nat_keyed, is_empty,
}
use secureprompt.Prelude.Int.{ℤ, ltb_ℤ}
use secureprompt.Text.{Str}
use secureprompt.Text.Trim.{trim}
use secureprompt.Types.{ok, forbidden}
use secureprompt.Roles.{UserRole, admin, require_role}
use secureprompt.License.State.{
  valid, LicenseSnapshot, LicenseState, set, mark_revoked, raw_status,
  clear_revocation_if_superseded,
}
use secureprompt.License.Token.{Vendor, load_and_verify_token, classify_window, snapshot_from}
use secureprompt.License.Revocation.{
  RevocationVerdict, PollerDeps, PollTick, check_status, poll_tick, begin_tick, finish_tick,
  verdict_action,
}
use secureprompt.License.Routes.{
  Gateway, Access, supersede, activated, activate_license, vendor_key,
}
use secureprompt.License.Gate.{
  license_gate, is_allowlisted, block, refusal, enforce, Answer, refused,
}
use secureprompt.License.Gate
use secureprompt.License.Revocation
use secureprompt.License.Lifecycle.{IsWellFormed, is_some}
use secureprompt.License.Steps.{activated-IsWellFormed}

-- A token without white space round it that the vendor signed, read inside its window.
pub record IsInForce (w : Vendor) (token : Str) (vk : w.VerifyingKey) (now : ℤ) (lic : w.License)
    : Type 0 where
  pub nb : ℤ
  pub exp : ℤ
  pub trimmed : trim token ≡ token
  pub nonempty : is_empty token ≡ false
  pub signed : w.decode_verified_token token vk ≡ some lic
  pub not_before : w.parse_rfc3339 (w.not_before lic) ≡ some nb
  pub expires_at : w.parse_rfc3339 (w.expires_at lic) ≡ some exp
  pub begun : ltb_ℤ now nb ≡ false
  pub unexpired : ltb_ℤ exp now ≡ false

module _ (w : Vendor) (token : Str) (vk : w.VerifyingKey) (now : ℤ) (lic : w.License) where
  load_in_force :
      IsInForce w token vk now lic
      → load_and_verify_token w token vk now ≡ snapshot_from w lic valid
  unfolding load_and_verify_token classify_window
  load_in_force f =
      ground
        (arith, f.trimmed, f.nonempty, f.signed, f.not_before, f.expires_at, f.begun, f.unexpired)

  activated_in_force :
      (g : Gateway)
      → IsInForce w token vk now lic
      → activated w token vk now g ≡ record {
        license = supersede (some (w.lic_id lic)) (set (snapshot_from w lic valid) g.license);
        activation = some token;
      }
  unfolding activated snapshot_from
  activated_in_force g f = rw (f.trimmed, load_in_force f) refl

superseded :
    (id : Str) (state : LicenseState)
    → IsWellFormed state
    → state.revoked_lic_id ≢ some id
    → (supersede (some id) state).is_revoked ≡ false
unfolding supersede clear_revocation_if_superseded
superseded id state wf ne = elim (Option-cases state.revoked_lic_id) [
  | inl q ↦ ground (arith, q, wf.identified)
  | inr (old, q) ↦ elim (Bool-cases (old == id)) [
    | inl same ↦ absurd (ne (q ∙ ap some ((list_beq_iff old id).0 same)))
    | inr other ↦ ground (arith, q, other)
  ]
]

supersede_keeps :
    (id : Option Str) (state : LicenseState) → (supersede id state).inner ≡ state.inner
unfolding supersede clear_revocation_if_superseded
supersede_keeps none state = refl
supersede_keeps (some id) state = ground arith

module _ (w : Vendor) (token : Str) (vk : w.VerifyingKey) (now : ℤ) (lic : w.License)
    (g : Gateway) where
  installed_inner :
      IsInForce w token vk now lic
      → (activated w token vk now g).license.inner ≡ snapshot_from w lic valid
  unfolding set
  installed_inner f =
      ap (λ (k : Gateway). k.license.inner) (activated_in_force w token vk now lic g f)
      ∙ supersede_keeps (some (w.lic_id lic)) (set (snapshot_from w lic valid) g.license)

  installed_clears :
      IsWellFormed g.license
      → IsInForce w token vk now lic
      → g.license.revoked_lic_id ≢ some (w.lic_id lic)
      → (activated w token vk now g).license.is_revoked ≡ false
  unfolding set snapshot_from
  installed_clears wf f ne =
      ap (λ (k : Gateway). k.license.is_revoked) (activated_in_force w token vk now lic g f)
      ∙ superseded (w.lic_id lic) (set (snapshot_from w lic valid) g.license)
          (record { named = refl; identified = wf.identified }) ne

  installs :
      (role : UserRole) (access : Access)
      → require_role role admin ≡ ok tt
      → access.write_error ≡ none
      → IsInForce w token vk now lic
      → activate_license w role (some vk) token now access g ≡ (ok tt, activated w token vk now g)
  unfolding activate_license vendor_key
  installs role access allowed written f =
      let decoded : w.decode_verified_token (trim token) vk ≡ some lic =
        ap (λ t. w.decode_verified_token t vk) f.trimmed ∙ f.signed in
      ground (arith, allowed, decoded, written)

  -- Let an administrator present a token that the vendor signed, inside its window, for a licence
  -- other than the revoked one, if any, and let the database take it. Then the activation succeeds,
  -- the revocation is gone, the status is `Valid`, and the poller's next tick asks about the new
  -- licence.
  pub activate_license_recovers :
      (role : UserRole) (access : Access)
      → IsWellFormed g.license
      → require_role role admin ≡ ok tt
      → access.write_error ≡ none
      → IsInForce w token vk now lic
      → g.license.revoked_lic_id ≢ some (w.lic_id lic)
      → let (answer, after) = activate_license w role (some vk) token now access g in
        (answer ≡ ok tt)
        × (after.license.is_revoked ≡ false)
        × (raw_status after.license ≡ valid)
        × (begin_tick after.license ≡ check_status (w.lic_id lic))
  unfolding raw_status begin_tick poll_tick snapshot_from
  activate_license_recovers role access wf allowed written f ne =
      let cleared = installed_clears wf f ne in
      let inner = installed_inner f in
      let status = ap (λ (k : LicenseSnapshot). k.status) inner in
      let named = ap (λ (k : LicenseSnapshot). k.lic_id) inner in
      rw (installs role access allowed written f)
        (refl, cleared, ground (arith, cleared, status), ground (arith, cleared, named))

some_inj : {a b : Str} → some a ≡ some b → a ≡ b
some_inj e = cc e

absurd_some : true ≡ false → ⊥
absurd_some e = cc e

-- Take a gateway whose revocation names the licence of one token, and another token, both signed and
-- inside their windows, for a different licence. After the second token and then the first again are
-- installed, the revocation is gone and the snapshot is the `Valid` one of the revoked licence.
pub activated_reinstates :
    (w : Vendor) (vk : w.VerifyingKey) (now : ℤ) (token other : Str) (lic instead : w.License)
    (g : Gateway)
    → IsWellFormed g.license
    → g.license.revoked_lic_id ≡ some (w.lic_id lic)
    → IsInForce w token vk now lic
    → IsInForce w other vk now instead
    → w.lic_id lic ≢ w.lic_id instead
    → let after = activated w token vk now (activated w other vk now g) in
      (after.license.is_revoked ≡ false) × (after.license.inner ≡ snapshot_from w lic valid)
activated_reinstates w vk now token other lic instead g wf was f f' ne =
    let mid = activated w other vk now g in
    let mid_wf = activated-IsWellFormed w other vk now g wf in
    let cleared : mid.license.is_revoked ≡ false =
      installed_clears w other vk now instead g wf f' (λ p. ne (some_inj (sym was ∙ p))) in
    let unnamed : mid.license.revoked_lic_id ≢ some (w.lic_id lic) =
      λ p. absurd_some (sym (ap is_some p) ∙ mid_wf.identified ∙ cleared) in
    (
      installed_clears w token vk now lic mid mid_wf f unnamed,
      installed_inner w token vk now lic mid f,
    )

-- Let the poller ask about the licence in force, and let a signed token for another licence be
-- installed before the vendor answers that the first is revoked. The answer then marks the gateway as
-- revoked although the snapshot is the `Valid` one of the new licence, and every request outside the
-- recovery list is refused.
pub finish_tick_late :
    (w : Vendor) (d : PollerDeps) (vk : w.VerifyingKey) (now : ℤ) (token path old : Str)
    (lic : w.License) (g : Gateway) (issued_at : Option ℤ) (world : d.World)
    → begin_tick g.license ≡ check_status old
    → IsInForce w token vk now lic
    → w.lic_id lic ≢ old
    → is_allowlisted path ≡ false
    → let after =
        (finish_tick d old
          (Revocation.revoked, issued_at)
          now
          (activated w token vk now g).license
          world).0 in
      (after.inner ≡ snapshot_from w lic valid)
      × (enforce {Response = Unit {0}} now after path tt
          ≡ refused (forbidden (refusal Gate.revoked)))
unfolding finish_tick verdict_action mark_revoked enforce license_gate
finish_tick_late w d vk now token path old lic g issued_at world asked f ne outside =
    (installed_inner w token vk now lic g f, ground (arith, outside))
