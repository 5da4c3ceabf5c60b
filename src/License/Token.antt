-- ===== src/License/Token.antt =====
-- secureprompt-api/src/license/mod.rs: which token is in force, and the snapshot that it gives.
use secureprompt.Prelude.{
  ℕ, ◌&&◌, Bool, not, Option, none, some, List, [], ◌++◌, is_empty, if◌then◌else◌,
}
use secureprompt.Prelude.Int.{ℤ, pos, wrap_i64, ltb_ℤ}
use secureprompt.Text.{Str, lit}
use secureprompt.Text.Trim.{trim}
use secureprompt.Map.{Map}
use secureprompt.License.State.{
  LicenseStatus, valid, grace, LicenseSnapshot, unlicensed_snapshot, LicenseState, is_valid,
  effective_status,
}

-- The vendor's library `sp_license` and the libraries for base64 and keys: the verified licence with
-- the parts that are read of it, the keys, and the unwrapping of a key.
pub record Vendor : Type 1 where
  pub License : Type 0
  pub seats : License → ℕ
  pub features : License → List Str
  pub customer_name : License → Str
  pub not_before : License → Str
  pub expires_at : License → Str
  pub wrapped_key : License → Str
  pub lic_id : License → Str
  pub wrapped_attestation_key : License → Str
  pub image_digests : License → Map Str Str
  pub revalidate_soft_secs : License → Option ℕ
  pub revalidate_hard_secs : License → Option ℕ
  pub VerifyingKey : Type 0
  pub parse_vendor_key : Str → Option VerifyingKey
  pub decode_verified_token : Str → VerifyingKey → Option License
  pub parse_rfc3339 : Str → Option ℤ
  pub Kek : Type 0
  pub SigningKey : Type 0
  pub unwrap_signing_key : Kek → Str → Str → Option SigningKey

module _ (w : Vendor) where
  abbrev pub budget : Option ℕ → Option ℤ
  budget none = none
  budget (some secs) = some (wrap_i64 (pos secs))

  abbrev pub only_if {ℓ} : {A : Type ℓ} → Bool → A → Option A
  only_if b a = if b then some a else none

  unfoldable pub snapshot_from : w.License → LicenseStatus → LicenseSnapshot
  snapshot_from lic status =
      let in_force = is_valid status in
      record {
        status = status;
        max_seats = some (w.seats lic);
        features = w.features lic;
        customer_name = some (w.customer_name lic);
        expires_at = some (w.expires_at lic);
        wrapped_model_key = only_if in_force (w.wrapped_key lic);
        lic_id = only_if in_force (w.lic_id lic);
        wrapped_attestation_key = only_if in_force (w.wrapped_attestation_key lic);
        image_digests = if in_force then w.image_digests lic else [];
        revalidate_soft_secs = budget (w.revalidate_soft_secs lic);
        revalidate_hard_secs = budget (w.revalidate_hard_secs lic);
        not_before_epoch = w.parse_rfc3339 (w.not_before lic);
      }

  -- The validity window of a verified licence.
  unfoldable pub classify_window : w.License → Option ℤ → Option ℤ → ℤ → LicenseSnapshot
  classify_window lic (some nb) (some exp) now_epoch =
      if not (ltb_ℤ now_epoch nb) && not (ltb_ℤ exp now_epoch)
      then snapshot_from lic valid
      else snapshot_from lic grace
  classify_window lic (some nb) none now_epoch = unlicensed_snapshot
  classify_window lic none exp now_epoch = unlicensed_snapshot

  unfoldable pub load_and_verify_token : Str → w.VerifyingKey → ℤ → LicenseSnapshot
  load_and_verify_token token vk now_epoch =
      let trimmed = trim token in
      if is_empty trimmed then unlicensed_snapshot else elim (w.decode_verified_token trimmed vk) [
        | none ↦ unlicensed_snapshot
        | some lic ↦
            classify_window lic (w.parse_rfc3339 (w.not_before lic))
              (w.parse_rfc3339 (w.expires_at lic)) now_epoch
      ]

  -- `LicenseState::unwrap_attestation_key`
  unfoldable pub unwrap_attestation_key : ℤ → w.Kek → LicenseState → Option w.SigningKey
  unwrap_attestation_key now kek state =
      if not (is_valid (effective_status now state))
      then none
      else elim state.inner.wrapped_attestation_key [
        | none ↦ none
        | some wrapped ↦ elim state.inner.lic_id [
          | none ↦ none
          | some id ↦ w.unwrap_signing_key kek wrapped (id ++ lit ":attest")
        ]
      ]

-- `resolve_active_token`, by the answer of the database (`none` for a failure): the token of the row,
-- if there is one, and else the configured one.
unfoldable pub resolve_active_token : Option (Option Str) → Str → Str
resolve_active_token (some (some token)) env_token = token
resolve_active_token (some none) env_token = env_token
resolve_active_token none env_token = env_token

-- `effective_vendor_pubkey` and `effective_attest_kek`: the value pinned by the build comes first.
abbrev pub pinned_or : Option Str → Str → Str
pinned_or none runtime_b64 = runtime_b64
pinned_or (some pinned) runtime_b64 = pinned
