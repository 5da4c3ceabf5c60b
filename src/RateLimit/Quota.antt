-- ===== src/RateLimit/Quota.antt =====
-- How many requests one window lets through, and what is not counted.
use secureprompt.Prelude.{
  ℕ, suc, ◌+◌, ◌-◌, ◌≤◌, ◌<◌, ◌≡◌, ◌∙◌, refl, sym, ap, subst, inl, inr, Bool-cases, Option, none,
  some, List, [], ◌∷◌, arith, All, retain, list_keyed, nat_keyed, list_beq, list_beq_iff,
}
use mathlib.Core.Option
use secureprompt.Text.{Str}
use secureprompt.Map.{Map, lookup, lookup-remove}
use secureprompt.Types.{ok}
use secureprompt.RateLimit.Buckets.{
  allowance, Spends, check-Spends, Leaves, check-Leaves, check-parameters, lookup-trim,
}
use secureprompt.RateLimit.{RateLimiter, fresh, trim, decide, check, accepted}

-- The request falls into the window that begins at the start.
abbrev pub IsDuring : ℕ → ℕ → ℕ × Str → Type 0
IsDuring start window request = (start ≤ request.0) × (request.0 ≤ start + window)

accepted-allowance :
    (key : Str) (limiter : RateLimiter) (start : ℕ) (requests : List (ℕ × Str))
    → 0 < limiter.max_requests
    → All (IsDuring start limiter.window) requests
    → accepted key limiter requests
      ≤ allowance limiter.max_requests start (lookup key limiter.buckets)
unfolding accepted
accepted-allowance key limiter start [] some_max during = omega arith
accepted-allowance key limiter start ((now, asked) ∷ requests) some_max during =
    let after = (check limiter now asked).1 in
    let kept = check-parameters limiter now asked in
    let later : accepted key after requests
        ≤ allowance limiter.max_requests start (lookup key after.buckets) =
      subst (λ m. accepted key after requests ≤ allowance m start (lookup key after.buckets)) kept.1
        (accepted-allowance key after start requests (subst (λ m. 0 < m) (sym kept.1) some_max)
          (subst (λ w. All (IsDuring start w) requests) (sym kept.0) during.1)) in
    elim (Bool-cases (list_beq asked key)) [
      | inl same ↦
          let spends : Spends limiter start key (lookup key limiter.buckets)
              (check limiter now asked) =
            subst (λ k. Spends limiter start k (lookup k limiter.buckets) (check limiter now asked))
              ((list_beq_iff asked key).0 same)
              (check-Spends limiter start now asked some_max during.0.0 during.0.1) in
          ground (arith, same, later, spends)
      | inr ne ↦
          let leaves : Leaves limiter key after = check-Leaves limiter now asked key ne in
          let same_allowance = ap (allowance limiter.max_requests start) leaves.2 in
          ground (arith, ne, later, same_allowance)
    ]

allowance-le : (max start : ℕ) (found : Option (List ℕ)) → allowance max start found ≤ suc max
allowance-le max start none = omega arith
allowance-le max start (some instants) = ground arith

-- For a limiter that lets some request through: of a sequence of checks, on any keys, at instants
-- that lie in one window, at most `max_requests + 1` of a key are let through, whatever the buckets
-- hold before.
pub accepted-le :
    (key : Str) (limiter : RateLimiter) (start : ℕ) (requests : List (ℕ × Str))
    → 0 < limiter.max_requests
    → All (IsDuring start limiter.window) requests
    → accepted key limiter requests ≤ suc limiter.max_requests
accepted-le key limiter start requests some_max during = omega (
  arith,
  accepted-allowance key limiter start requests some_max during,
  allowance-le limiter.max_requests start (lookup key limiter.buckets),
)

-- For a limiter that lets some request through: of a sequence of checks, on any keys, at instants
-- that lie in one window, at most `max_requests` of a key are let through if the key has no bucket
-- before.
pub accepted-le_new :
    (key : Str) (limiter : RateLimiter) (start : ℕ) (requests : List (ℕ × Str))
    → 0 < limiter.max_requests
    → lookup key limiter.buckets ≡ none
    → All (IsDuring start limiter.window) requests
    → accepted key limiter requests ≤ limiter.max_requests
accepted-le_new key limiter start requests some_max new during =
    rw new at (accepted-allowance key limiter start requests some_max during)

stale_retain :
    (window now : ℕ) (instants : List ℕ)
    → All (λ instant. window < now - instant) instants
    → retain (fresh window now) instants ≡ []
stale_retain window now [] stale = refl
stale_retain window now (x ∷ xs) stale = ground (arith, stale.0, stale_retain window now xs stale.1)

decide_empty :
    (limiter : RateLimiter) (now : ℕ) (key : Str) (buckets : Map Str (List ℕ))
    → ((decide limiter now key (some []) buckets).0 ≡ ok tt)
      × (lookup key (decide limiter now key (some []) buckets).1.buckets ≡ none)
unfolding decide
decide_empty limiter now key buckets =
    (refl, ground (arith, lookup-remove key key buckets, list_beq_iff key key))

-- Where every instant that the key's bucket holds is older than the window, a check lets the request
-- through and does not record it: the key has no bucket afterwards.
pub check_unrecorded :
    (limiter : RateLimiter) (now : ℕ) (key : Str) (instants : List ℕ)
    → lookup key limiter.buckets ≡ some instants
    → All (λ instant. limiter.window < now - instant) instants
    → ((check limiter now key).0 ≡ ok tt) × (lookup key (check limiter now key).1.buckets ≡ none)
unfolding check
check_unrecorded limiter now key instants e stale =
    let trimmed = trim limiter.window now key limiter.buckets in
    let found : lookup key trimmed ≡ some [] =
      lookup-trim limiter.window now key limiter.buckets
      ∙ ap (Option.map (λ ts. retain (fresh limiter.window now) ts)) e
      ∙ ap some (stale_retain limiter.window now instants stale) in
    rw found (decide_empty limiter now key trimmed)
