-- ===== src/License/Cases.antt =====
-- What the handlers of http/routes/license.rs and the periodic check of main.rs do to the licence, by
-- how they end.
use secureprompt.Prelude.{
  ◌≡◌, ◌≢◌, refl, ◌⊎◌, inl, inr, Option-cases, Option, none, some, arith, list_keyed, nat_keyed,
}
use secureprompt.Prelude.Int.{ℤ}
use secureprompt.Text.{Str}
use secureprompt.Text.Trim.{trim}
use secureprompt.Types.{ApiError, Result, ok, err, panic}
use secureprompt.Roles.{UserRole, owner, admin, developer, employee, viewer, require_role}
use secureprompt.License.State.{LicenseState, set, observe_clock, observe_freshness}
use secureprompt.License.Token.{Vendor, load_and_verify_token, resolve_active_token}
use secureprompt.License.Revocation.{PollerDeps, observe_row}
use secureprompt.License.Routes.{
  Gateway, Access, stored_token, activated, activate_license, delete_license, snapshot_of, recheck,
  seeded, vendor_key,
}

Result-cases {ℓ} :
    {A : Type ℓ} (r : Result A)
    → ((a : A) × (r ≡ ok a)) ⊎ (((e : ApiError) × (r ≡ err e)) ⊎ (r ≡ panic))
Result-cases (ok a) = inl (a, refl)
Result-cases (err e) = inr (inl (e, refl))
Result-cases panic = inr (inr refl)

entitled :
    (role : UserRole) (done : Unit {0})
    → require_role role admin ≡ ok done
    → (role ≡ owner) ⊎ (role ≡ admin)
unfolding require_role
entitled owner done e = inl refl
entitled admin done e = inr refl
entitled developer done e = absurd (cc e)
entitled employee done e = absurd (cc e)
entitled viewer done e = absurd (cc e)

module _ (w : Vendor) where
  -- An activation either leaves the gateway as it is, or the caller is entitled to it, the key is
  -- configured, the token decodes under it, and the token is written and installed.
  pub activate_license_cases :
      (role : UserRole) (key : Option w.VerifyingKey) (token : Str) (now : ℤ) (access : Access)
      (g : Gateway)
      → (((activate_license w role key token now access g).1 ≡ g)
          × ((activate_license w role key token now access g).0 ≢ ok tt))
        ⊎ ((vk : w.VerifyingKey) × (lic : w.License) × ((role ≡ owner) ⊎ (role ≡ admin))
            × (key ≡ some vk)
            × (w.decode_verified_token (trim token) vk ≡ some lic)
            × (access.write_error ≡ none)
            × ((activate_license w role key token now access g).1 ≡ activated w token vk now g))
  unfolding activate_license vendor_key
  activate_license_cases role key token now access g =
      elim (Result-cases (require_role role admin)) [
        | inr (inr e) ↦ inl (ground (arith, e), λ k. ground (arith, e, k))
        | inr (inl (error, e)) ↦ inl (ground (arith, e), λ k. ground (arith, e, k))
        | inl (done, e) ↦ elim (Option-cases key) [
          | inl n ↦ inl (ground (arith, e, n), λ k. ground (arith, e, n, k))
          | inr (vk, n) ↦ elim (Option-cases (w.decode_verified_token (trim token) vk)) [
            | inl f ↦ inl (ground (arith, e, n, f), λ k. ground (arith, e, n, f, k))
            | inr (lic, f) ↦ elim (Option-cases access.write_error) [
              | inr (error, q) ↦
                  inl (ground (arith, e, n, f, q), λ k. ground (arith, e, n, f, q, k))
              | inl q ↦ inr (vk, lic, entitled role done e, n, f, q, ground (arith, e, n, f, q))
            ]
          ]
        ]
      ]

  -- A deletion either leaves the gateway as it is or sets the snapshot of another token.
  pub delete_license_cases :
      (role : UserRole) (key : Option w.VerifyingKey) (now : ℤ) (access : Access) (g : Gateway)
      → ((delete_license w role key now access g).1 ≡ g)
        ⊎ ((token : Str) × ((delete_license w role key now access g).1 ≡ record {
          license = set (snapshot_of w key token now) g.license;
          activation = none;
        }))
  unfolding delete_license
  delete_license_cases role key now access g = elim (Result-cases (require_role role admin)) [
    | inr (inr e) ↦ inl (ground (arith, e))
    | inr (inl (error, e)) ↦ inl (ground (arith, e))
    | inl (done, e) ↦ elim (Option-cases access.write_error) [
      | inr (error, q) ↦ inl (ground (arith, e, q))
      | inl q ↦ inr (
        resolve_active_token (stored_token access (record g { activation = none }))
            access.env_token,
        ground (arith, e, q),
      )
    ]
  ]

  -- An activation that goes through passed all its checks.
  pub activate_license_ok :
      (role : UserRole) (key : Option w.VerifyingKey) (token : Str) (now : ℤ) (access : Access)
      (g : Gateway)
      → (activate_license w role key token now access g).0 ≡ ok tt
      → (vk : w.VerifyingKey) × (lic : w.License) × ((role ≡ owner) ⊎ (role ≡ admin))
        × (key ≡ some vk)
        × (w.decode_verified_token (trim token) vk ≡ some lic)
        × (access.write_error ≡ none)
  activate_license_ok role key token now access g passed =
      elim (activate_license_cases role key token now access g) [
        | inl failed ↦ absurd (failed.1 passed)
        | inr (vk, lic, who, configured, checked, written, installed) ↦
            (vk, lic, who, configured, checked, written)
      ]

  -- A check sets a snapshot and moves the clocks.
  pub recheck_lem :
      (d : PollerDeps) (vk : w.VerifyingKey) (verified_at now : ℤ) (access : Access) (g : Gateway)
      (world : d.World)
      → let after = (recheck w d vk verified_at now access g world).0.license in
        let token = resolve_active_token (stored_token access g) access.env_token in
        (after.inner ≡ load_and_verify_token w token vk verified_at)
        × (after.is_revoked ≡ g.license.is_revoked)
        × (after.revoked_lic_id ≡ g.license.revoked_lic_id)
  unfolding recheck set observe_clock observe_row observe_freshness
  recheck_lem d vk verified_at now access g world = ground arith

-- The clocks do not touch the snapshot or the revocation.
pub observed_lem :
    (d : PollerDeps) (row : Option (ℤ × ℤ)) (now : ℤ) (state : LicenseState)
    → let after = observe_clock now (observe_row d row state) in
      (after.inner ≡ state.inner)
      × (after.is_revoked ≡ state.is_revoked)
      × (after.revoked_lic_id ≡ state.revoked_lic_id)
unfolding observe_clock observe_row observe_freshness
observed_lem d none now state = (refl, refl, refl)
observed_lem d (some row) now state = (refl, refl, refl)

pub seeded_lem :
    (load : Str → Option (ℤ × ℤ)) (state : LicenseState)
    → ((seeded load state).inner ≡ state.inner)
      × ((seeded load state).is_revoked ≡ state.is_revoked)
      × ((seeded load state).revoked_lic_id ≡ state.revoked_lic_id)
unfolding seeded observe_freshness
seeded_lem load state = elim (Option-cases state.inner.lic_id) [
  | inl e ↦ ground (arith, e)
  | inr (id, e) ↦ elim (Option-cases (load id)) [
    | inl f ↦ ground (arith, e, f)
    | inr (row, f) ↦ ground (arith, e, f)
  ]
]
