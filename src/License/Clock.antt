-- ===== src/License/Clock.antt =====
-- The offline countdown: it cannot be turned back, and its arithmetic does not wrap.
use secureprompt.Prelude.{ℕ, ◌-◌, ◌^◌, ◌≤◌, ◌<◌, ◌≡◌, Option, none, some, arith}
use secureprompt.Prelude.Int.{ℤ, pos, negsuc, pos_part, neg_part, max_ℤ, sub_i64, IsEpoch}
use secureprompt.License.Freshness.{
  OfflineVerdict, fresh, soft_stale, hard_stale, judge, offline_for, classify_offline,
}
use secureprompt.License.State.{
  LicenseState, offline_verdict, observe_clock, observe_freshness, epoch_or_zero,
}

-- A value of the type `i64`.
abbrev pub IsI64 : ℤ → Type 0
IsI64 a = (pos_part a < 2 ^ 63) × (neg_part a ≤ 2 ^ 63)

-- The two clocks in memory are not negative.
pub record IsClocked (state : LicenseState) : Type 0 where
  pub asserted : IsEpoch state.last_assertion_at
  pub highwater : IsEpoch state.highwater_at

max_ℤ-IsEpoch : (a b : ℤ) → IsEpoch a → IsI64 b → IsEpoch (max_ℤ a b)
max_ℤ-IsEpoch a b h k = ground arith

max_ℤ-IsEpoch-right : (a b : ℤ) → IsI64 a → IsEpoch b → IsEpoch (max_ℤ a b)
max_ℤ-IsEpoch-right a b h k = ground arith

sub_i64-pos :
    (a b : ℤ) → IsEpoch a → IsEpoch b → max_ℤ (sub_i64 a b) (pos 0) ≡ pos (pos_part a - pos_part b)
sub_i64-pos (pos a) (pos b) h k = ground arith
sub_i64-pos (pos a) (negsuc b) h k = absurd (omega arith)
sub_i64-pos (negsuc a) b h k = absurd (omega arith)

unfoldable pub rank : OfflineVerdict → ℕ
rank fresh = 0
rank soft_stale = 1
rank hard_stale = 2

offline_for-pos :
    (now highwater last not_before : ℤ)
    → IsI64 now
    → IsEpoch highwater
    → IsEpoch last
    → IsI64 not_before
    → offline_for now highwater last not_before
      ≡ pos (pos_part (max_ℤ now highwater) - pos_part (max_ℤ last not_before))
unfolding offline_for
offline_for-pos now highwater last not_before hn hh hl hb =
    sub_i64-pos (max_ℤ now highwater) (max_ℤ last not_before)
      (max_ℤ-IsEpoch-right now highwater hn hh) (max_ℤ-IsEpoch last not_before hl hb)

rank-judge :
    (m n : ℕ) (soft hard : ℤ)
    → m ≤ n
    → rank (judge (pos m) soft hard) ≤ rank (judge (pos n) soft hard)
unfolding judge rank
rank-judge m n soft hard h = ground arith

later-perceived :
    (t now highwater : ℤ) → pos_part (max_ℤ t highwater) ≤ pos_part (max_ℤ now (max_ℤ highwater t))
later-perceived t now highwater = ground arith

rank-classify_offline :
    (t now highwater last not_before : ℤ) (soft hard : Option ℤ)
    → IsI64 t
    → IsI64 now
    → IsEpoch highwater
    → IsEpoch last
    → IsI64 not_before
    → rank (classify_offline t highwater last not_before soft hard)
      ≤ rank (classify_offline now (max_ℤ highwater t) last not_before soft hard)
unfolding classify_offline
rank-classify_offline t now highwater last not_before none hard ht hn hh hl hb = omega arith
rank-classify_offline t now highwater last not_before (some soft) none ht hn hh hl hb = omega arith
rank-classify_offline t now highwater last not_before (some soft) (some hard) ht hn hh hl hb =
    rw
      (
        offline_for-pos t highwater last not_before ht hh hl hb,
        offline_for-pos now (max_ℤ highwater t) last not_before hn (max_ℤ-IsEpoch highwater t hh ht)
            hl hb,
      )
      (rank-judge (pos_part (max_ℤ t highwater) - pos_part (max_ℤ last not_before))
        (pos_part (max_ℤ now (max_ℤ highwater t)) - pos_part (max_ℤ last not_before)) soft hard
        (omega (arith, later-perceived t now highwater)))

-- Once a reading of the clock has been observed, no later reading, also an earlier time, gives a
-- milder offline verdict than the first reading gave. All readings are `i64` values, and the clocks
-- in memory are not negative.
pub offline_verdict-observe_clock :
    (state : LicenseState) (t now : ℤ)
    → IsClocked state
    → IsI64 (epoch_or_zero state.inner.not_before_epoch)
    → IsI64 t
    → IsI64 now
    → rank (offline_verdict t state) ≤ rank (offline_verdict now (observe_clock t state))
unfolding offline_verdict observe_clock
offline_verdict-observe_clock state t now clocked hb ht hn =
    rank-classify_offline t now state.highwater_at state.last_assertion_at
      (epoch_or_zero state.inner.not_before_epoch) state.inner.revalidate_soft_secs
      state.inner.revalidate_hard_secs ht hn clocked.highwater clocked.asserted hb

-- For `i64` times and clocks in memory that are not negative, the offline time is the exact distance
-- from the last good check to the perceived present, or zero, so that its subtraction does not wrap.
pub offline_for_exact :
    (state : LicenseState) (now : ℤ)
    → IsClocked state
    → IsI64 (epoch_or_zero state.inner.not_before_epoch)
    → IsI64 now
    → offline_for now state.highwater_at state.last_assertion_at
        (epoch_or_zero state.inner.not_before_epoch)
      ≡ pos (
          pos_part (max_ℤ now state.highwater_at)
          - pos_part (max_ℤ state.last_assertion_at (epoch_or_zero state.inner.not_before_epoch)))
offline_for_exact state now clocked hb hn =
    offline_for-pos now state.highwater_at state.last_assertion_at
      (epoch_or_zero state.inner.not_before_epoch) hn clocked.highwater clocked.asserted hb

pub observe_clock-IsClocked :
    (state : LicenseState) (now : ℤ)
    → IsClocked state
    → IsI64 now
    → IsClocked (observe_clock now state)
unfolding observe_clock
observe_clock-IsClocked state now h k = record {
  asserted = h.asserted;
  highwater = max_ℤ-IsEpoch state.highwater_at now h.highwater k;
}

pub observe_freshness-IsClocked :
    (state : LicenseState) (last highwater : ℤ)
    → IsClocked state
    → IsI64 last
    → IsI64 highwater
    → IsClocked (observe_freshness last highwater state)
unfolding observe_freshness
observe_freshness-IsClocked state last highwater h k l = record {
  asserted = max_ℤ-IsEpoch state.last_assertion_at last h.asserted k;
  highwater = max_ℤ-IsEpoch state.highwater_at highwater h.highwater l;
}
