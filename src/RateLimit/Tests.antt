-- ===== src/RateLimit/Tests.antt =====
-- A limiter of two requests in ten units, with a bucket whose only instant is long past.
use secureprompt.Prelude.{ℕ, ◌≡◌, ◌≤◌, refl, none, List, [], ◌∷◌, arith, list_keyed, nat_keyed}
use secureprompt.Text.{Str, lit}
use secureprompt.Map.{lookup, insert, remove}
use secureprompt.Types.{ok}
use secureprompt.RateLimit.{RateLimiter, check, accepted, trim, decide, admit}
use secureprompt.RateLimit.Quota.{accepted-le, check_unrecorded}

abbrev idle : RateLimiter
idle = record { window = 10; max_requests = 2; buckets = (lit "api_key:7", 5 ∷ []) ∷ [] }

abbrev burst : List (ℕ × Str)
burst =
    (100, lit "api_key:7")
    ∷ (101, lit "api_key:7")
    ∷ (102, lit "api_key:8")
    ∷ (103, lit "api_key:7")
    ∷ (104, lit "api_key:7")
    ∷ []

accepted-le_example : accepted (lit "api_key:7") idle burst ≤ 3
accepted-le_example = accepted-le (lit "api_key:7") idle 100 burst (omega arith) (omega arith)

-- The bound is reached: three requests in a window of two.
accepted-burst : accepted (lit "api_key:7") idle burst ≡ 3
unfolding accepted check trim decide admit lookup insert remove
accepted-burst = refl

check_unrecorded_example :
    ((check idle 100 (lit "api_key:7")).0 ≡ ok tt)
    × (lookup (lit "api_key:7") (check idle 100 (lit "api_key:7")).1.buckets ≡ none)
unfolding lookup
check_unrecorded_example = check_unrecorded idle 100 (lit "api_key:7") (5 ∷ []) refl (omega arith)
