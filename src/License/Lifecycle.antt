-- ===== src/License/Lifecycle.antt =====
-- The life of a licence in a running gateway: what the handlers and the background tasks do, in any
-- order, as steps on the shared state.
use secureprompt.Prelude.{
  ◌≡◌, refl, inl, inr, Bool, true, false, Option-cases, Option, none, some, arith, list_keyed,
  nat_keyed,
}
use secureprompt.Prelude.Int.{ℤ}
use secureprompt.Text.{Str}
use secureprompt.Text.Trim.{trim}
use secureprompt.License.State.{
  LicenseStatus, valid, grace, unlicensed, revoked, LicenseSnapshot, LicenseState, is_valid, set,
  mark_revoked, clear_revocation_if_superseded, observe_freshness,
}
use secureprompt.License.Token.{Vendor, snapshot_from, classify_window, load_and_verify_token}
use secureprompt.License.Revocation.{RevocationVerdict, PollerDeps, observe_row, finish_tick}
use secureprompt.License.Routes.{supersede}

abbrev pub is_some {ℓ} : {A : Type ℓ} → Option A → Bool
is_some none = false
is_some (some a) = true

-- Exactly a licence that is in force names itself.
abbrev pub IsNamed : LicenseSnapshot → Type 0
IsNamed s = is_some s.lic_id ≡ is_valid s.status

-- A revocation is set exactly if it names a licence.
pub record IsWellFormed (state : LicenseState) : Type 0 where
  pub named : IsNamed state.inner
  pub identified : is_some state.revoked_lic_id ≡ state.is_revoked

module _ (w : Vendor) where
  snapshot_from-IsNamed :
      (lic : w.License) (status : LicenseStatus) → IsNamed (snapshot_from w lic status)
  unfolding snapshot_from
  snapshot_from-IsNamed lic valid = refl
  snapshot_from-IsNamed lic grace = refl
  snapshot_from-IsNamed lic unlicensed = refl
  snapshot_from-IsNamed lic revoked = refl

  classify_window-IsNamed :
      (lic : w.License) (nb exp : Option ℤ) (now : ℤ) → IsNamed (classify_window w lic nb exp now)
  unfolding classify_window
  classify_window-IsNamed lic (some nb) (some exp) now =
      ground (arith, snapshot_from-IsNamed lic valid, snapshot_from-IsNamed lic grace)
  classify_window-IsNamed lic (some nb) none now = refl
  classify_window-IsNamed lic none exp now = refl

  pub load_and_verify_token-IsNamed :
      (token : Str) (vk : w.VerifyingKey) (now : ℤ) → IsNamed (load_and_verify_token w token vk now)
  unfolding load_and_verify_token
  load_and_verify_token-IsNamed token vk now =
      elim (Option-cases (w.decode_verified_token (trim token) vk)) [
        | inl e ↦ ground (arith, e)
        | inr (lic, e) ↦ ground (
          arith,
          e,
          classify_window-IsNamed lic (w.parse_rfc3339 (w.not_before lic))
              (w.parse_rfc3339 (w.expires_at lic)) now,
        )
      ]

pub set-IsWellFormed :
    (s : LicenseSnapshot) (state : LicenseState)
    → IsNamed s
    → IsWellFormed state
    → IsWellFormed (set s state)
unfolding set
set-IsWellFormed s state n h = record { named = n; identified = h.identified }

pub supersede-IsWellFormed :
    (id : Option Str) (state : LicenseState)
    → IsWellFormed state
    → IsWellFormed (supersede id state)
unfolding supersede clear_revocation_if_superseded
supersede-IsWellFormed none state h = h
supersede-IsWellFormed (some id) state h = ground arith

pub finish_tick-IsWellFormed :
    (d : PollerDeps) (id : Str) (answer : RevocationVerdict × Option ℤ) (now : ℤ)
    (state : LicenseState) (world : d.World)
    → IsWellFormed state
    → IsWellFormed (finish_tick d id answer now state world).0
unfolding finish_tick observe_row mark_revoked observe_freshness
finish_tick-IsWellFormed d id (verdict, issued_at) now state world h = ground arith
