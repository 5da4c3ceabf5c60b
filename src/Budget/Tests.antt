-- ===== src/Budget/Tests.antt =====
-- A Redis that keeps its counters in a list of charges.
use secureprompt.Prelude.{
  ℕ, ◌+◌, refl, inl, none, some, List, [], ◌∷◌, if◌then◌else◌, list_keyed, nat_keyed, ◌==◌,
}
use secureprompt.Text.{Str, lit}
use secureprompt.Types.{budget_exceeded, ok}
use secureprompt.Prelude.Int.{ℤ, pos, negsuc}
use secureprompt.Budget.{
  Redis, WorkspaceBudgetRow, block_requests, incr_and_get, pre_check_budget, budget_check,
  after_daily, after_monthly, gate, outcome, exceeded_bucket,
}
use secureprompt.Budget.Gate.{IsBlocked, pre_check_budget-err}

abbrev magnitude : ℤ → ℕ
magnitude (pos n) = n
magnitude (negsuc n) = 0

-- The charges of a key, added up.
abbrev total : Str → List (Str × ℕ) → ℕ
total key [] = 0
total key ((charged, n) ∷ store) =
    let rest = total key store in if charged == key then n + rest else rest

abbrev ledger : Redis
ledger = record {
  Store = List (Str × ℕ);
  checkout = λ store. (ok tt, store);
  incrby = λ key delta store.
      (ok (pos (magnitude delta + total key store)), (key, magnitude delta) ∷ store);
  expire_nx = λ key seconds store. store;
}

abbrev row : WorkspaceBudgetRow
row = record {
  daily_token_limit = some (pos 100);
  monthly_token_limit = none;
  behavior = block_requests;
}

abbrev used : List (Str × ℕ)
used = (lit "day", 90) ∷ []

abbrev charged : List (Str × ℕ)
charged = (lit "month", 20) ∷ (lit "day", 20) ∷ (lit "day", 90) ∷ []

row-IsBlocked : IsBlocked ledger row (lit "day") (lit "month") 20 used charged
unfolding incr_and_get
row-IsBlocked = record {
  daily_used = pos 110;
  monthly_used = pos 20;
  between = (lit "day", 20) ∷ used;
  daily_charged = refl;
  monthly_charged = refl;
  blocks = refl;
  over = inl refl;
}

pre_check_budget-err_example : IsBlocked ledger row (lit "day") (lit "month") 20 used charged
unfolding pre_check_budget budget_check after_daily after_monthly incr_and_get gate outcome
    exceeded_bucket
pre_check_budget-err_example =
    pre_check_budget-err ledger row (lit "day") (lit "month") 20 used charged
      (budget_exceeded (lit "daily token budget exceeded")) refl
