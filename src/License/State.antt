-- ===== src/License/State.antt =====
-- secureprompt-api/src/license/mod.rs: the snapshot of the licence and `LicenseState`. A method is one
-- step on the state. The locks are never poisoned, since no holder of one panics.
use secureprompt.Prelude.{
  ℕ, Bool, true, false, not, ◌&&◌, ◌==◌, Option, none, some, List, [], ◌∷◌, ◌++◌, any, is_empty,
  list_keyed, nat_keyed, if◌then◌else◌,
}
use secureprompt.Prelude.Int.{ℤ, pos, max_ℤ}
use secureprompt.Text.{Str, lit}
use secureprompt.Map.{Map, lookup}
use secureprompt.License.Freshness.{OfflineVerdict, fresh, soft_stale, hard_stale, classify_offline}

pub data LicenseStatus : Type 0 where
  valid grace unlicensed revoked : LicenseStatus

pub record LicenseSnapshot : Type 0 where
  pub status : LicenseStatus
  pub max_seats : Option ℕ
  pub features : List Str
  pub customer_name : Option Str
  pub expires_at : Option Str
  pub wrapped_model_key : Option Str
  pub lic_id : Option Str
  pub wrapped_attestation_key : Option Str
  pub image_digests : Map Str Str
  pub revalidate_soft_secs : Option ℤ
  pub revalidate_hard_secs : Option ℤ
  pub not_before_epoch : Option ℤ

-- `LicenseSnapshot::unlicensed`
abbrev pub unlicensed_snapshot : LicenseSnapshot
unlicensed_snapshot = record {
  status = unlicensed;
  max_seats = none;
  features = [];
  customer_name = none;
  expires_at = none;
  wrapped_model_key = none;
  lic_id = none;
  wrapped_attestation_key = none;
  image_digests = [];
  revalidate_soft_secs = none;
  revalidate_hard_secs = none;
  not_before_epoch = none;
}

pub record LicenseState : Type 0 where
  pub inner : LicenseSnapshot
  pub is_revoked : Bool
  pub revoked_lic_id : Option Str
  pub last_assertion_at : ℤ
  pub highwater_at : ℤ

-- `LicenseState::new`
abbrev pub new_state : LicenseSnapshot → LicenseState
new_state s = record {
  inner = s;
  is_revoked = false;
  revoked_lic_id = none;
  last_assertion_at = pos 0;
  highwater_at = pos 0;
}

-- `LicenseState::set`
unfoldable pub set : LicenseSnapshot → LicenseState → LicenseState
set s state = record state { inner = s }

unfoldable pub mark_revoked : Str → LicenseState → LicenseState
mark_revoked lic_id state = record state { revoked_lic_id = some lic_id; is_revoked = true }

-- The answer is whether the flag was cleared.
unfoldable pub clear_revocation_if_superseded : Str → LicenseState → Bool × LicenseState
clear_revocation_if_superseded new_lic_id state =
    if not state.is_revoked then (false, state) else elim state.revoked_lic_id [
      | none ↦ (false, state)
      | some old ↦
          if old == new_lic_id
          then (false, state)
          else (true, record state { revoked_lic_id = none; is_revoked = false })
    ]

unfoldable pub observe_freshness : ℤ → ℤ → LicenseState → LicenseState
observe_freshness last_assertion_at highwater_at state = record state {
  last_assertion_at = max_ℤ state.last_assertion_at last_assertion_at;
  highwater_at = max_ℤ state.highwater_at highwater_at;
}

unfoldable pub observe_clock : ℤ → LicenseState → LicenseState
observe_clock now state = record state { highwater_at = max_ℤ state.highwater_at now }

abbrev pub epoch_or_zero : Option ℤ → ℤ
epoch_or_zero none = pos 0
epoch_or_zero (some t) = t

-- `offline_verdict`, at a reading of the clock.
unfoldable pub offline_verdict : ℤ → LicenseState → OfflineVerdict
offline_verdict now state =
    classify_offline now state.highwater_at state.last_assertion_at
      (epoch_or_zero state.inner.not_before_epoch) state.inner.revalidate_soft_secs
      state.inner.revalidate_hard_secs

abbrev pub overlay : OfflineVerdict → LicenseStatus
overlay fresh = valid
overlay soft_stale = unlicensed
overlay hard_stale = revoked

abbrev pub is_valid : LicenseStatus → Bool
is_valid valid = true
is_valid grace = false
is_valid unlicensed = false
is_valid revoked = false

unfoldable pub effective_status : ℤ → LicenseState → LicenseStatus
effective_status now state =
    if state.is_revoked
    then revoked
    else if is_valid state.inner.status
    then overlay (offline_verdict now state)
    else state.inner.status

abbrev pub is_hard : OfflineVerdict → Bool
is_hard fresh = false
is_hard soft_stale = false
is_hard hard_stale = true

unfoldable pub is_hard_stale : ℤ → LicenseState → Bool
is_hard_stale now state =
    if state.is_revoked
    then false
    else is_valid state.inner.status && is_hard (offline_verdict now state)

-- `LicenseState::status`
unfoldable pub raw_status : LicenseState → LicenseStatus
raw_status state = if state.is_revoked then revoked else state.inner.status

unfoldable pub max_seats : ℤ → LicenseState → Option ℕ
max_seats now state = if is_valid (effective_status now state) then state.inner.max_seats else none

unfoldable pub is_feature_enabled : ℤ → Str → LicenseState → Bool
is_feature_enabled now f state = elim (effective_status now state) [
  | valid ↦ any (λ x. x == f) state.inner.features
  | grace ↦ true
  | unlicensed ↦ true
  | revoked ↦ false
]

unfoldable pub tamper_check : Map Str Str → Str → Str → Option Str
tamper_check pins component actual_digest =
    if is_empty actual_digest then none else elim (lookup component pins) [
      | none ↦ none
      | some expected ↦
          if not (is_empty expected) && not (expected == actual_digest)
          then some (
              lit "image digest mismatch for "
              ++ (component
                  ++ (lit ": licensed " ++ (expected ++ (lit ", running " ++ actual_digest)))))
          else none
    ]

abbrev pub to_list {ℓ} : {A : Type ℓ} → Option A → List A
to_list none = []
to_list (some a) = a ∷ []

unfoldable pub tamper_flags : Str → Str → LicenseState → List Str
tamper_flags component actual state =
    to_list (tamper_check state.inner.image_digests component actual)
