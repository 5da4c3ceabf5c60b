-- ===== src/License/Routes.antt =====
-- secureprompt-api/src/http/routes/license.rs, and the tasks of main.rs that set the licence: the
-- start, and the periodic check of the token. The caller's role is checked by Roles.
use secureprompt.Prelude.{Bool, Option, none, some, List, is_empty, if◌then◌else◌}
use secureprompt.Prelude.Int.{ℤ}
use secureprompt.Text.{Str, lit}
use secureprompt.Text.Trim.{trim}
use secureprompt.Types.{ApiError, bad_request, internal, Result, ok, err, panic, ◌>>=◌}
use secureprompt.Roles.{UserRole, admin, require_role}
use secureprompt.License.State.{
  LicenseStatus, valid, grace, unlicensed, revoked, LicenseSnapshot, unlicensed_snapshot,
  LicenseState, new_state, set, clear_revocation_if_superseded, effective_status, observe_clock,
  observe_freshness,
}
use secureprompt.License.Token.{Vendor, load_and_verify_token, resolve_active_token}
use secureprompt.License.Revocation.{PollerDeps, observe_row}

-- The state that the handlers share: the licence in memory, and the row of `license_activation`.
pub record Gateway : Type 0 where
  pub license : LicenseState
  pub activation : Option Str

-- The configured token, and the outcome of each access to the database: whether a read fails, and the
-- error of a write that is rolled back.
pub record Access : Type 0 where
  pub env_token : Str
  pub read_fails : Bool
  pub write_error : Option ApiError

pub record LicenseStatusResponse : Type 0 where
  pub customer_name : Option Str
  pub lic_id : Option Str
  pub expires_at : Option Str
  pub features : List Str
  pub status : Str
  pub source : Str

-- `license_repo::get`
abbrev pub stored_token : Access → Gateway → Option (Option Str)
stored_token access g = if access.read_fails then none else some g.activation

unfoldable pub resolve_source : Access → Gateway → Str
resolve_source access g = elim (stored_token access g) [
  | some (some token) ↦ lit "db"
  | some none ↦ if is_empty access.env_token then lit "none" else lit "env"
  | none ↦ if is_empty access.env_token then lit "none" else lit "env"
]

abbrev pub status_str : LicenseStatus → Str
status_str valid = lit "Valid"
status_str grace = lit "Grace"
status_str unlicensed = lit "Unlicensed"
status_str revoked = lit "Revoked"

unfoldable pub build_response : ℤ → Access → Gateway → LicenseStatusResponse
build_response now access g =
    let snap = g.license.inner in
    record {
      customer_name = snap.customer_name;
      lic_id = snap.lic_id;
      expires_at = snap.expires_at;
      features = snap.features;
      status = status_str (effective_status now g.license);
      source = resolve_source access g;
    }

-- `get_license`
unfoldable pub get_license : UserRole → ℤ → Access → Gateway → Result LicenseStatusResponse
get_license role now access g = require_role role admin >>= λ _. ok (build_response now access g)

-- What a new snapshot does to a revocation: only one that names a licence can supersede it.
unfoldable pub supersede : Option Str → LicenseState → LicenseState
supersede none state = state
supersede (some lic_id) state = (clear_revocation_if_superseded lic_id state).1

-- The clocks of the state at the start, from the row that the database loads, if it does.
unfoldable pub seeded : (Str → Option (ℤ × ℤ)) → LicenseState → LicenseState
seeded load state = elim state.inner.lic_id [
  | none ↦ state
  | some lic_id ↦ elim (load lic_id) [
    | none ↦ state
    | some (last, highwater) ↦ observe_freshness last highwater state
  ]
]

-- `vendor_key`
unfoldable pub vendor_key {ℓ} : {K : Type ℓ} → Option K → Result K
vendor_key none = err (internal (lit "vendor public key is not configured or invalid"))
vendor_key (some vk) = ok vk

module _ (w : Vendor) where
  -- The state that `activate_license` leaves when the token is stored.
  unfoldable pub activated : Str → w.VerifyingKey → ℤ → Gateway → Gateway
  activated token vk now g =
      let snapshot = load_and_verify_token w (trim token) vk now in
      record {
        license = supersede snapshot.lic_id (set snapshot g.license);
        activation = some (trim token);
      }

  -- `activate_license`, at one stroke (License/Steps has the halves too); `none` for a vendor key that does not parse.
  unfoldable pub activate_license :
      UserRole → Option w.VerifyingKey → Str → ℤ → Access → Gateway → Result (Unit {0}) × Gateway
  activate_license role key token now access g =
      elim (require_role role admin >>= λ _. vendor_key key) [
        | err e ↦ (err e, g)
        | panic ↦ (panic, g)
        | ok vk ↦ elim (w.decode_verified_token (trim token) vk) [
          | none ↦ (err (bad_request (lit "invalid license signature")), g)
          | some lic ↦ elim access.write_error [
            | some e ↦ (err e, g)
            | none ↦ (ok tt, activated token vk now g)
          ]
        ]
      ]

  abbrev pub snapshot_of : Option w.VerifyingKey → Str → ℤ → LicenseSnapshot
  snapshot_of none token now = unlicensed_snapshot
  snapshot_of (some vk) token now = load_and_verify_token w token vk now

  -- `delete_license`
  unfoldable pub delete_license :
      UserRole → Option w.VerifyingKey → ℤ → Access → Gateway → Result (Unit {0}) × Gateway
  delete_license role key now access g = elim (require_role role admin) [
    | err e ↦ (err e, g)
    | panic ↦ (panic, g)
    | ok done ↦ elim access.write_error [
      | some e ↦ (err e, g)
      | none ↦
          let cleared = record g { activation = none } in
          let token = resolve_active_token (stored_token access cleared) access.env_token in
          (ok tt, record cleared { license = set (snapshot_of key token now) g.license })
    ]
  ]

  -- The state at the start of the process.
  unfoldable pub start_license :
      Option w.VerifyingKey → ℤ → Access → Option Str → (Str → Option (ℤ × ℤ)) → LicenseState
  start_license key now access activation load =
      let stored = if access.read_fails then none else some activation in
      seeded load (new_state (snapshot_of key (resolve_active_token stored access.env_token) now))

  -- One round of the periodic check, at one stroke, which runs only with a vendor key; the clock is
  -- read twice.
  unfoldable pub recheck :
      (d : PollerDeps) → w.VerifyingKey → ℤ → ℤ → Access → Gateway → d.World → Gateway × d.World
  recheck d vk verified_at now access g world =
      let token = resolve_active_token (stored_token access g) access.env_token in
      let renewed = set (load_and_verify_token w token vk verified_at) g.license in
      elim renewed.inner.lic_id [
        | none ↦ (record g { license = observe_clock now renewed }, world)
        | some lic_id ↦
            let (row, after) = d.save_freshness lic_id none now world in
            (record g { license = observe_clock now (observe_row d row renewed) }, after)
      ]
