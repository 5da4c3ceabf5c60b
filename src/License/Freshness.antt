-- ===== src/License/Freshness.antt =====
-- secureprompt-api/src/license/freshness.rs: how stale a licence is while the vendor is out of reach.
-- All times are seconds since the epoch, as `i64`.
use secureprompt.Prelude.{Option, none, some, if◌then◌else◌}
use secureprompt.Prelude.Int.{ℤ, pos, ltb_ℤ, max_ℤ, sub_i64}

pub data OfflineVerdict : Type 0 where
  fresh soft_stale hard_stale : OfflineVerdict

-- The comparison with the budgets. `debug_assert!` is absent from a release build.
unfoldable pub judge : ℤ → ℤ → ℤ → OfflineVerdict
judge offline soft hard =
    if ltb_ℤ hard offline then hard_stale else if ltb_ℤ soft offline then soft_stale else fresh

unfoldable pub offline_for : ℤ → ℤ → ℤ → ℤ → ℤ
offline_for now highwater last_assertion_at not_before =
    let perceived_now = max_ℤ now highwater in
    let last_good = max_ℤ last_assertion_at not_before in
    max_ℤ (sub_i64 perceived_now last_good) (pos 0)

unfoldable pub classify_offline : ℤ → ℤ → ℤ → ℤ → Option ℤ → Option ℤ → OfflineVerdict
classify_offline now highwater last_assertion_at not_before (some soft) (some hard) =
    judge (offline_for now highwater last_assertion_at not_before) soft hard
classify_offline now highwater last_assertion_at not_before (some soft) none = fresh
classify_offline now highwater last_assertion_at not_before none hard = fresh
