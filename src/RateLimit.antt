-- ===== src/RateLimit.antt =====
-- secureprompt-api/src/http/middleware/rate_limit.rs: the sliding window of the API-key gateway.
-- Instants and the window are nanoseconds; `Instant::duration_since` stops at zero, as `-` does.
pub mod Buckets
pub mod Quota
mod Tests
use secureprompt.Prelude.{
  ℕ, suc, ◌-◌, Bool, true, false, ◌&&◌, ◌==◌, Option, none, some, List, [], ◌∷◌, ◌++◌, ltb, leb,
  if◌then◌else◌, length, retain, list_keyed, nat_keyed,
}
use secureprompt.Text.{Str, lit}
use secureprompt.Map.{Map, lookup, insert, remove}
use secureprompt.Types.{ApiError, forbidden, Result, ok, err, panic}

pub record RateLimiter : Type 0 where
  pub window : ℕ
  pub max_requests : ℕ
  pub buckets : Map Str (List ℕ)

-- `RateLimiter::new`
abbrev pub new_limiter : ℕ → ℕ → RateLimiter
new_limiter max_requests window = record {
  window = window;
  max_requests = max_requests;
  buckets = [];
}

-- `entry.retain(|instant| now.duration_since(*instant) <= self.window)`
abbrev pub fresh : ℕ → ℕ → ℕ → Bool
fresh window now instant = leb (now - instant) window

unfoldable pub trim : ℕ → ℕ → Str → Map Str (List ℕ) → Map Str (List ℕ)
trim window now key buckets = elim (lookup key buckets) [
  | none ↦ buckets
  | some instants ↦ insert key (retain (fresh window now) instants) buckets
]

-- `buckets.entry(key).or_default()`, the test of its length and the push.
unfoldable pub admit :
    RateLimiter → ℕ → Str → List ℕ → Map Str (List ℕ) → Result (Unit {0}) × RateLimiter
admit limiter now key instants buckets =
    if leb limiter.max_requests (length instants)
    then (
      err (forbidden (lit "rate limit exceeded for " ++ key)),
      record limiter { buckets = insert key instants buckets },
    )
    else (ok tt, record limiter { buckets = insert key (instants ++ now ∷ []) buckets })

-- What follows the trimming.
unfoldable pub decide :
    RateLimiter → ℕ → Str → Option (List ℕ) → Map Str (List ℕ) → Result (Unit {0}) × RateLimiter
decide limiter now key (some []) buckets = (ok tt, record limiter { buckets = remove key buckets })
decide limiter now key none buckets =
    if ltb 100000 (length buckets)
    then (
      err (forbidden (lit "rate limiter capacity exceeded")),
      record limiter { buckets = buckets },
    )
    else admit limiter now key [] buckets
decide limiter now key (some (instant ∷ instants)) buckets =
    if ltb 100000 (length buckets)
    then (
      err (forbidden (lit "rate limiter capacity exceeded")),
      record limiter { buckets = buckets },
    )
    else admit limiter now key (instant ∷ instants) buckets

-- `RateLimiter::check` at an instant: the answer and the limiter after it.
unfoldable pub check : RateLimiter → ℕ → Str → Result (Unit {0}) × RateLimiter
check limiter now key =
    let buckets = trim limiter.window now key limiter.buckets in
    decide limiter now key (lookup key buckets) buckets

-- `enforce_rate_limit`, the two checks at their instants. A name is the formatted identifier.
unfoldable pub enforce_rate_limit :
    RateLimiter → ℕ → ℕ → Str → Str → Result (Unit {0}) × RateLimiter
enforce_rate_limit limiter first second api_key_id workspace_id =
    let (answer, after) = check limiter first (lit "api_key:" ++ api_key_id) in
    elim answer [
      | ok done ↦ check after second (lit "workspace:" ++ workspace_id)
      | err e ↦ (err e, after)
      | panic ↦ (panic, after)
    ]

abbrev pub is_ok {ℓ} : {A : Type ℓ} → Result A → Bool
is_ok (ok a) = true
is_ok (err e) = false
is_ok panic = false

-- How many requests of a key a sequence of checks lets through.
unfoldable pub accepted : Str → RateLimiter → List (ℕ × Str) → ℕ
accepted key limiter [] = 0
accepted key limiter ((now, asked) ∷ requests) =
    let (answer, after) = check limiter now asked in
    let later = accepted key after requests in
    if is_ok answer && asked == key then suc later else later
