-- ===== src/License/Revocation.antt =====
-- secureprompt-api/src/license/revocation.rs: the online revocation check and its poller.
use secureprompt.Prelude.{
  Bool, true, false, ◌==◌, Option, none, some, List, [], ◌∷◌, list_keyed, nat_keyed, if◌then◌else◌,
}
use secureprompt.Prelude.Int.{ℤ, pos, max_ℤ}
use secureprompt.Text.{Str, lit}
use secureprompt.Policy.{Json}
use secureprompt.License.State.{LicenseState, mark_revoked, observe_freshness}

pub data RevocationVerdict : Type 0 where
  active revoked unknown : RevocationVerdict

-- What the GET request comes to.
pub data Reply (j : Json) : Type 0 where
  unreachable : Reply j
  non_success : Reply j
  unparseable : Reply j
  body : j.Value → Reply j

-- `sp_license`'s assertion and its signature, and the two parsers of times.
pub record Assertions (j : Json) : Type 1 where
  pub FreshnessAssertion : Type 0
  pub from_value : j.Value → Option FreshnessAssertion
  pub status : FreshnessAssertion → Str
  pub issued_at : FreshnessAssertion → Str
  pub VerifyingKey : Type 0
  pub verify_assertion : VerifyingKey → FreshnessAssertion → Str → Bool
  pub chrono_rfc3339 : Str → Option ℤ
  pub parse_rfc3339 : Str → Option ℤ

unfoldable pub verdict_from_status : Option Str → RevocationVerdict
verdict_from_status none = unknown
verdict_from_status (some status) = if status == lit "revoked" then revoked else active

module _ (j : Json) (a : Assertions j) where
  unfoldable pub issued_epoch : a.FreshnessAssertion → Option ℤ
  issued_epoch assertion = elim (a.chrono_rfc3339 (a.issued_at assertion)) [
    | some epoch ↦ some epoch
    | none ↦ a.parse_rfc3339 (a.issued_at assertion)
  ]

  -- The signed path of `check`.
  unfoldable pub check_signed : a.VerifyingKey → j.Value → Str → RevocationVerdict × Option ℤ
  check_signed vk value sig = elim (a.from_value value) [
    | none ↦ (unknown, none)
    | some assertion ↦
        if a.verify_assertion vk assertion sig
        then (if a.status assertion == lit "revoked"
            then (revoked, none)
            else elim (issued_epoch assertion) [
              | some epoch ↦ (active, some epoch)
              | none ↦ (unknown, none)
            ])
        else (unknown, none)
  ]

  abbrev pub get_text : j.Value → Str → Option Str
  get_text value name = elim (j.get value name) [ none ↦ none | some v ↦ j.as_str v ]

  -- The unsigned path.
  unfoldable pub check_unsigned : j.Value → RevocationVerdict × Option ℤ
  check_unsigned value = elim (get_text value (lit "status")) [
    | none ↦ (unknown, none)
    | some status ↦ if status == lit "revoked" then (revoked, none) else (active, none)
  ]

  unfoldable pub check_body : a.VerifyingKey → j.Value → RevocationVerdict × Option ℤ
  check_body vk value = elim (j.get value (lit "assertion")) [
    | none ↦ check_unsigned value
    | some assertion ↦ elim (get_text value (lit "sig")) [
      | none ↦ check_unsigned value
      | some sig ↦ check_signed vk assertion sig
    ]
  ]

  -- `check`, by the reply to its request.
  unfoldable pub check : a.VerifyingKey → Reply j → RevocationVerdict × Option ℤ
  check vk unreachable = (unknown, none)
  check vk non_success = (unknown, none)
  check vk unparseable = (unknown, none)
  check vk (body value) = check_body vk value

pub data IdleReason : Type 0 where
  already_revoked no_license_id : IdleReason

pub data PollTick : Type 0 where
  idle : IdleReason → PollTick
  check_status : Str → PollTick

unfoldable pub poll_tick : Bool → Option Str → PollTick
poll_tick true lic_id = idle already_revoked
poll_tick false (some id) = check_status id
poll_tick false none = idle no_license_id

pub data VerdictAction : Type 0 where
  mark : VerdictAction
  record_freshness : Option ℤ → VerdictAction

unfoldable pub verdict_action : RevocationVerdict → Option ℤ → VerdictAction
verdict_action revoked issued_at = mark
verdict_action active issued_at = record_freshness issued_at
verdict_action unknown issued_at = record_freshness none

-- `PollerDeps`: the vendor and the database, each with the world that it leaves.
pub record PollerDeps : Type 1 where
  pub World : Type 0
  pub ask_status : Str → World → (RevocationVerdict × Option ℤ) × World
  pub save_freshness : Str → Option ℤ → ℤ → World → Option (ℤ × ℤ) × World

-- The first half of a tick: what it decides by the state that it reads.
unfoldable pub begin_tick : LicenseState → PollTick
begin_tick state = poll_tick state.is_revoked state.inner.lic_id

module _ (d : PollerDeps) where
  unfoldable pub observe_row : Option (ℤ × ℤ) → LicenseState → LicenseState
  observe_row none state = state
  observe_row (some (last, highwater)) state = observe_freshness last highwater state

  -- The second half, when the vendor has answered: other tasks may have changed the state.
  unfoldable pub finish_tick :
      Str → RevocationVerdict × Option ℤ → ℤ → LicenseState → d.World → LicenseState × d.World
  finish_tick lic_id (verdict, issued_at) now state world =
      elim (verdict_action verdict issued_at) [
        | mark ↦ (mark_revoked lic_id state, world)
        | record_freshness assertion_at ↦
            let (row, after) = d.save_freshness lic_id assertion_at now world in
            (observe_row row state, after)
      ]

  -- A tick of `run_poller` with no other task between its halves.
  unfoldable pub run_tick : ℤ → LicenseState → d.World → LicenseState × d.World
  run_tick now state world = elim (begin_tick state) [
    | idle reason ↦ (state, world)
    | check_status lic_id ↦
        let (answer, asked) = d.ask_status lic_id world in finish_tick lic_id answer now state asked
  ]

  -- `run_poller`, for as many ticks as the clock is read.
  unfoldable pub run_poller : List ℤ → LicenseState → d.World → LicenseState × d.World
  run_poller [] state world = (state, world)
  run_poller (now ∷ later) state world =
      let (after, left) = run_tick now state world in run_poller later after left

-- freshness_store.rs: the table `license_freshness`, a row for each parsed identifier.
pub record FreshnessRow : Type 0 where
  pub last_assertion_at : ℤ
  pub highwater_at : ℤ

abbrev pub assertion_or_zero : Option ℤ → ℤ
assertion_or_zero none = pos 0
assertion_or_zero (some t) = t

-- The row that the upsert leaves, by the row before.
unfoldable pub merge_row : Option FreshnessRow → Option ℤ → ℤ → FreshnessRow
merge_row none observed_assertion_at system_now =
    let assertion = assertion_or_zero observed_assertion_at in
    record { last_assertion_at = assertion; highwater_at = max_ℤ assertion system_now }
merge_row (some row) observed_assertion_at system_now =
    let assertion = assertion_or_zero observed_assertion_at in
    record {
      last_assertion_at = max_ℤ row.last_assertion_at assertion;
      highwater_at = max_ℤ row.highwater_at (max_ℤ assertion system_now);
    }
