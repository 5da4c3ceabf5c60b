-- ===== src/Budget.antt =====
-- secureprompt-api/src/http/middleware/rate_limit.rs: the token budgets of a workspace, charged on
-- counters in Redis. The row of `workspace_budgets` is an argument, and so are the keys, which
-- the date of the call gives. Metrics and logging are left out.
pub mod Gate
mod Tests
use secureprompt.Prelude.{
  ℕ, ◌^◌, ◌-◌, Bool, true, false, Option, none, some, ◌++◌, ◌*◌, ltb, if◌then◌else◌,
}
use secureprompt.Prelude.Int.{ℤ, pos, negsuc, ltb_ℤ}
use secureprompt.Text.{Str, lit}
use secureprompt.Types.{ApiError, budget_exceeded, Result, ok, err, panic, ◌>>=◌}

-- The Redis server: a connection from the pool, and the commands `INCRBY` and `EXPIRE … NX`.
-- Each call gives the store after it, also where it fails.
pub record Redis : Type 1 where
  pub Store : Type 0
  pub checkout : Store → Result (Unit {0}) × Store
  pub incrby : Str → ℤ → Store → Result ℤ × Store
  pub expire_nx : Str → ℕ → Store → Store

pub data BudgetBehavior : Type 0 where
  block_requests warn_client flag_silently : BudgetBehavior

pub record WorkspaceBudgetRow : Type 0 where
  pub daily_token_limit : Option ℤ
  pub monthly_token_limit : Option ℤ
  pub behavior : BudgetBehavior

pub data BudgetBucket : Type 0 where
  daily monthly : BudgetBucket

pub data BudgetOutcome : Type 0 where
  allow : BudgetOutcome
  warn flag exceeded : BudgetBucket → BudgetOutcome

pub data BudgetGate : Type 0 where
  pass : BudgetGate
  pass_warned : BudgetBucket → BudgetGate

-- `i64::try_from(estimated_tokens).unwrap_or(i64::MAX)`
abbrev pub charge : ℕ → ℤ
charge tokens = if ltb tokens (2 ^ 63) then pos tokens else pos (2 ^ 63 - 1)

-- `limit.is_some_and(|limit| used > limit)`
abbrev pub is_over : Option ℤ → ℤ → Bool
is_over none used = false
is_over (some limit) used = ltb_ℤ limit used

unfoldable pub exceeded_bucket : WorkspaceBudgetRow → ℤ → ℤ → Option BudgetBucket
exceeded_bucket budget daily_used monthly_used =
    if is_over budget.daily_token_limit daily_used
    then some daily
    else if is_over budget.monthly_token_limit monthly_used
    then some monthly
    else none

unfoldable pub outcome : WorkspaceBudgetRow → Option BudgetBucket → BudgetOutcome
outcome budget none = allow
outcome budget (some bucket) = elim budget.behavior [
  | block_requests ↦ exceeded bucket
  | warn_client ↦ warn bucket
  | flag_silently ↦ flag bucket
]

abbrev pub label : BudgetBucket → Str
label daily = lit "daily"
label monthly = lit "monthly"

-- What `pre_check_budget` makes of the outcome.
unfoldable pub gate : BudgetOutcome → Result BudgetGate
gate allow = ok pass
gate (flag bucket) = ok pass
gate (warn bucket) = ok (pass_warned bucket)
gate (exceeded bucket) = err (budget_exceeded (label bucket ++ lit " token budget exceeded"))

module _ (r : Redis) where
  -- `redis::incr_and_get`; a failing `EXPIRE` is ignored.
  unfoldable pub incr_and_get : Str → ℤ → ℕ → r.Store → Result ℤ × r.Store
  incr_and_get key delta ttl_secs_on_new store =
      let (connection, opened) = r.checkout store in
      elim connection [
        | err e ↦ (err e, opened)
        | panic ↦ (panic, opened)
        | ok done ↦
            let (answer, charged) = r.incrby key delta opened in
            elim answer [
              | err e ↦ (err e, charged)
              | panic ↦ (panic, charged)
              | ok new_value ↦ (ok new_value, r.expire_nx key ttl_secs_on_new charged)
            ]
      ]

  -- What `budget_check` makes of the answer for the month, and of that for the day.
  unfoldable pub after_monthly :
      WorkspaceBudgetRow → ℤ → Result ℤ × r.Store → Result BudgetOutcome × r.Store
  after_monthly budget daily_used (err e, store) = (ok allow, store)
  after_monthly budget daily_used (panic, store) = (panic, store)
  after_monthly budget daily_used (ok monthly_used, store) =
      (ok (outcome budget (exceeded_bucket budget daily_used monthly_used)), store)

  unfoldable pub after_daily :
      WorkspaceBudgetRow → Str → ℤ → Result ℤ × r.Store → Result BudgetOutcome × r.Store
  after_daily budget monthly_key delta (err e, store) = (ok allow, store)
  after_daily budget monthly_key delta (panic, store) = (panic, store)
  after_daily budget monthly_key delta (ok daily_used, store) =
      after_monthly budget daily_used (incr_and_get monthly_key delta (32 * 24 * 3600) store)

  -- `budget_check`, given the answer of the budget repository.
  unfoldable pub budget_check :
      Result (Option WorkspaceBudgetRow) → Str → Str → ℕ → r.Store → Result BudgetOutcome × r.Store
  budget_check (err e) daily_key monthly_key estimated_tokens store = (err e, store)
  budget_check panic daily_key monthly_key estimated_tokens store = (panic, store)
  budget_check (ok none) daily_key monthly_key estimated_tokens store = (ok allow, store)
  budget_check (ok (some budget)) daily_key monthly_key estimated_tokens store =
      let delta = charge estimated_tokens in
      after_daily budget monthly_key delta (incr_and_get daily_key delta (2 * 24 * 3600) store)

  abbrev pub with_gate : Result BudgetOutcome × r.Store → Result BudgetGate × r.Store
  with_gate (answer, store) = (answer >>= gate, store)

  -- `pre_check_budget`
  unfoldable pub pre_check_budget :
      Result (Option WorkspaceBudgetRow) → Str → Str → ℕ → r.Store → Result BudgetGate × r.Store
  pre_check_budget row daily_key monthly_key estimated_input_tokens store =
      with_gate (budget_check row daily_key monthly_key estimated_input_tokens store)
