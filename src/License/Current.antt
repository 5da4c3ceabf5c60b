-- ===== src/License/Current.antt =====
-- secureprompt-api/src/license/mod.rs, `load_and_verify_token`: what it means that a snapshot names a
-- licence.
use secureprompt.Prelude.{
  false, ◌≡◌, ◌∙◌, refl, sym, ap, inl, inr, Bool-cases, Option-cases, Option, none, some, arith,
  list_keyed, nat_keyed, is_empty,
}
use secureprompt.Prelude.Int.{ℤ, ltb_ℤ}
use secureprompt.Text.{Str}
use secureprompt.Text.Trim.{trim}
use secureprompt.License.State.{valid, LicenseSnapshot}
use secureprompt.License.Token.{Vendor, load_and_verify_token, classify_window, snapshot_from}

-- The licence is inside its window.
pub record IsCurrent (w : Vendor) (lic : w.License) (now : ℤ) : Type 0 where
  pub nb : ℤ
  pub exp : ℤ
  pub not_before : w.parse_rfc3339 (w.not_before lic) ≡ some nb
  pub expires_at : w.parse_rfc3339 (w.expires_at lic) ≡ some exp
  pub begun : ltb_ℤ now nb ≡ false
  pub unexpired : ltb_ℤ exp now ≡ false

module _ (w : Vendor) where
  classify_window-lic_id :
      (lic : w.License) (nb exp : Option ℤ) (now : ℤ) (id : Str)
      → (classify_window w lic nb exp now).lic_id ≡ some id
      → (a : ℤ) × (b : ℤ) × (nb ≡ some a)
        × (exp ≡ some b)
        × (ltb_ℤ now a ≡ false)
        × (ltb_ℤ b now ≡ false)
        × (w.lic_id lic ≡ id)
        × ((classify_window w lic nb exp now).status ≡ valid)
  unfolding classify_window snapshot_from
  classify_window-lic_id lic (some nb) (some exp) now id h = (
    nb,
    exp,
    refl,
    refl,
    ground (arith, h),
    ground (arith, h),
    ground (arith, h),
    ground (arith, h),
  )
  classify_window-lic_id lic (some nb) none now id h = absurd (cc h)
  classify_window-lic_id lic none exp now id h = absurd (cc h)

  -- A snapshot that names a licence comes of a token that the vendor signed, inside its window.
  pub load_and_verify_token-lic_id :
      (token : Str) (vk : w.VerifyingKey) (now : ℤ) (id : Str)
      → (load_and_verify_token w token vk now).lic_id ≡ some id
      → (lic : w.License) × (w.decode_verified_token (trim token) vk ≡ some lic)
        × (w.lic_id lic ≡ id)
        × IsCurrent w lic now
        × ((load_and_verify_token w token vk now).status ≡ valid)
  unfolding load_and_verify_token
  load_and_verify_token-lic_id token vk now id h =
      elim (Option-cases (w.decode_verified_token (trim token) vk)) [
        | inl e ↦ absurd (ground (arith, e, h))
        | inr (lic, e) ↦ elim (Bool-cases (is_empty (trim token))) [
          | inl empty ↦ absurd (ground (arith, empty, h))
          | inr text ↦
              let nb = w.parse_rfc3339 (w.not_before lic) in
              let exp = w.parse_rfc3339 (w.expires_at lic) in
              let same : load_and_verify_token w token vk now ≡ classify_window w lic nb exp now =
                ground (arith, e, text) in
              let (a, b, from, to, begun, unexpired, named, in_force) =
                classify_window-lic_id lic nb exp now id
                  (ap (λ (s : LicenseSnapshot). s.lic_id) (sym same) ∙ h) in
              (
                lic,
                e,
                named,
                record {
                  nb = a;
                  exp = b;
                  not_before = from;
                  expires_at = to;
                  begun = begun;
                  unexpired = unexpired;
                },
                ap (λ (s : LicenseSnapshot). s.status) same ∙ in_force,
              )
        ]
      ]
