-- ===== src/Budget/Gate.antt =====
-- When the pre-flight check of the token budget refuses a request.
use secureprompt.Prelude.{
  ℕ, ◌*◌, ◌≡◌, ◌≢◌, ◌∙◌, refl, ap, ◌⊎◌, inl, inr, true, false, Bool-cases, ◌++◌, Option, none, some,
  arith,
}
use secureprompt.Text.{Str, lit}
use secureprompt.Types.{ApiError, budget_exceeded, Result, ok, err, panic}
use secureprompt.Prelude.Int.{ℤ}
use secureprompt.Budget.{
  Redis, WorkspaceBudgetRow, BudgetBehavior, block_requests, warn_client, flag_silently,
  BudgetBucket, daily, monthly, charge, is_over, exceeded_bucket, outcome, gate, label,
  incr_and_get, budget_check, pre_check_budget, with_gate, after_monthly, after_daily,
}

-- Both counters are charged, what they give is above a limit, and the workspace blocks.
pub record IsBlocked (r : Redis) (budget : WorkspaceBudgetRow) (daily_key monthly_key : Str)
    (tokens : ℕ) (store after : r.Store) : Type 0 where
  pub daily_used : ℤ
  pub monthly_used : ℤ
  pub between : r.Store
  pub daily_charged :
      incr_and_get r daily_key (charge tokens) (2 * 24 * 3600) store ≡ (ok daily_used, between)
  pub monthly_charged :
      incr_and_get r monthly_key (charge tokens) (32 * 24 * 3600) between ≡ (ok monthly_used, after)
  pub blocks : budget.behavior ≡ block_requests
  pub over :
      (is_over budget.daily_token_limit daily_used ≡ true)
      ⊎ (is_over budget.monthly_token_limit monthly_used ≡ true)

exceeded_bucket-none :
    (budget : WorkspaceBudgetRow) (d m : ℤ)
    → is_over budget.daily_token_limit d ≡ false
    → is_over budget.monthly_token_limit m ≡ false
    → exceeded_bucket budget d m ≡ none
unfolding exceeded_bucket
exceeded_bucket-none budget d m h k = rw (h, k) refl

behavior_cases :
    (b : BudgetBehavior) → (b ≡ block_requests) ⊎ ((b ≡ warn_client) ⊎ (b ≡ flag_silently))
behavior_cases block_requests = inl refl
behavior_cases warn_client = inr (inl refl)
behavior_cases flag_silently = inr (inr refl)

gate-outcome_blocks :
    (budget : WorkspaceBudgetRow) (bucket : Option BudgetBucket) (e : ApiError)
    → gate (outcome budget bucket) ≡ err e
    → (budget.behavior ≡ block_requests) × (bucket ≢ none)
unfolding gate outcome
gate-outcome_blocks budget none e h = absurd (cc h)
gate-outcome_blocks budget (some bucket) e h = elim (behavior_cases budget.behavior) [
  | inl blocks ↦ (blocks, λ q. cc q)
  | inr (inl warns) ↦ absurd (ground (arith, h, warns))
  | inr (inr flags) ↦ absurd (ground (arith, h, flags))
]

gate-outcome_err :
    (budget : WorkspaceBudgetRow) (d m : ℤ) (e : ApiError)
    → gate (outcome budget (exceeded_bucket budget d m)) ≡ err e
    → (budget.behavior ≡ block_requests)
      × ((is_over budget.daily_token_limit d ≡ true)
          ⊎ (is_over budget.monthly_token_limit m ≡ true))
gate-outcome_err budget d m e h =
    let (blocks, some_bucket) = gate-outcome_blocks budget (exceeded_bucket budget d m) e h in
    elim (Bool-cases (is_over budget.daily_token_limit d)) [
      | inl over ↦ (blocks, inl over)
      | inr below ↦ elim (Bool-cases (is_over budget.monthly_token_limit m)) [
        | inl over ↦ (blocks, inr over)
        | inr fine ↦ absurd (some_bucket (exceeded_bucket-none budget d m below fine))
      ]
    ]

module _ (r : Redis) (budget : WorkspaceBudgetRow) (daily_key monthly_key : Str) (tokens : ℕ) where
  monthly_err :
      (store between after : r.Store) (d : ℤ) (e : ApiError) (p : Result ℤ × r.Store)
      → incr_and_get r daily_key (charge tokens) (2 * 24 * 3600) store ≡ (ok d, between)
      → incr_and_get r monthly_key (charge tokens) (32 * 24 * 3600) between ≡ p
      → with_gate r (after_monthly r budget d p) ≡ (err e, after)
      → IsBlocked r budget daily_key monthly_key tokens store after
  unfolding after_monthly gate
  monthly_err store between after d e (err f, s) charged_d charged_m h = absurd (cc h)
  monthly_err store between after d e (panic, s) charged_d charged_m h = absurd (cc h)
  monthly_err store between after d e (ok m, s) charged_d charged_m h =
      let (blocks, over) = gate-outcome_err budget d m e (ap (λ p. p.0) h) in
      record {
        daily_used = d;
        monthly_used = m;
        between = between;
        daily_charged = charged_d;
        monthly_charged = charged_m ∙ ap (λ s. (ok m, s)) (ap (λ p. p.1) h);
        blocks = blocks;
        over = over;
      }

  daily_err :
      (store after : r.Store) (e : ApiError) (p : Result ℤ × r.Store)
      → incr_and_get r daily_key (charge tokens) (2 * 24 * 3600) store ≡ p
      → with_gate r (after_daily r budget monthly_key (charge tokens) p) ≡ (err e, after)
      → IsBlocked r budget daily_key monthly_key tokens store after
  unfolding after_daily gate
  daily_err store after e (err f, s) charged h = absurd (cc h)
  daily_err store after e (panic, s) charged h = absurd (cc h)
  daily_err store after e (ok d, s) charged h =
      monthly_err store s after d e (incr_and_get r monthly_key (charge tokens) (32 * 24 * 3600) s)
        charged refl h

  -- With a budget row, a pre-flight check that ends by an error has charged both counters, and the
  -- workspace blocks requests, and one of the counters is now above its limit. A failure of Redis, a
  -- behaviour other than `block` and counters within the limits let the request through.
  pub pre_check_budget-err :
      (store after : r.Store) (e : ApiError)
      → pre_check_budget r (ok (some budget)) daily_key monthly_key tokens store ≡ (err e, after)
      → IsBlocked r budget daily_key monthly_key tokens store after
  unfolding pre_check_budget budget_check
  pre_check_budget-err store after e h =
      daily_err store after e (incr_and_get r daily_key (charge tokens) (2 * 24 * 3600) store) refl
        h

gate-outcome_over :
    (budget : WorkspaceBudgetRow) (d m : ℤ)
    → budget.behavior ≡ block_requests
    → (is_over budget.daily_token_limit d ≡ true) ⊎ (is_over budget.monthly_token_limit m ≡ true)
    → (bucket : BudgetBucket) × (gate (outcome budget (exceeded_bucket budget d m))
        ≡ err (budget_exceeded (label bucket ++ lit " token budget exceeded")))
unfolding gate outcome exceeded_bucket
gate-outcome_over budget d m blocks (inl over) = (daily, ground (arith, blocks, over))
gate-outcome_over budget d m blocks (inr over) =
    elim (Bool-cases (is_over budget.daily_token_limit d)) [
      | inl also ↦ (daily, ground (arith, blocks, also))
      | inr below ↦ (monthly, ground (arith, blocks, over, below))
    ]

-- Where both counters are charged, one is now above its limit and the workspace blocks requests, the
-- pre-flight check ends by a budget error that names the day or the month, and the charges stay.
pub pre_check_budget_blocked :
    (r : Redis) (budget : WorkspaceBudgetRow) (daily_key monthly_key : Str) (tokens : ℕ)
    (store after : r.Store)
    → IsBlocked r budget daily_key monthly_key tokens store after
    → (bucket : BudgetBucket) × (pre_check_budget r
          (ok (some budget))
          daily_key
          monthly_key
          tokens
          store
        ≡ (err (budget_exceeded (label bucket ++ lit " token budget exceeded")), after))
unfolding pre_check_budget budget_check after_daily after_monthly
pre_check_budget_blocked r budget daily_key monthly_key tokens store after blocked =
    let (bucket, refused) =
      gate-outcome_over budget blocked.daily_used blocked.monthly_used blocked.blocks
        blocked.over in
    (
      bucket,
      ap (λ p. with_gate r (after_daily r budget monthly_key (charge tokens) p))
            blocked.daily_charged
          ∙ ap (λ p. with_gate r (after_monthly r budget blocked.daily_used p))
              blocked.monthly_charged
          ∙ ap (λ a. (a, after)) refused,
    )
