-- ===== src/RateLimit/Buckets.antt =====
-- What one check does to the bucket of its key, and that it leaves the other buckets.
use secureprompt.Prelude.{
  ℕ, suc, ◌+◌, ◌-◌, ◌≤◌, ◌<◌, ◌≡◌, ◌∙◌, refl, ap, false, inl, inr, Bool-cases, Option-cases, Option,
  none, some, List, [], ◌∷◌, ◌++◌, ltb, leb, arith, if◌then◌else◌, length, retain, list_keyed,
  nat_keyed, list_beq, list_beq_iff,
}
use mathlib.Core.Option
use secureprompt.Text.{Str}
use secureprompt.Map.{Map, lookup, lookup-remove, lookup-insert, lookup-insert_self}
use secureprompt.Types.{Result}
use secureprompt.RateLimit.{RateLimiter, fresh, trim, admit, decide, check, is_ok}

-- The recorded instants that are not before the start.
abbrev recent : ℕ → List ℕ → ℕ
recent start instants = length (retain (leb start) instants)

-- How many more requests the window that begins at the start lets through at most.
abbrev pub allowance : ℕ → ℕ → Option (List ℕ) → ℕ
allowance max start none = max
allowance max start (some instants) =
    if leb (recent start instants) 0 then suc max else max - recent start instants

recent-append :
    (start : ℕ) (xs ys : List ℕ) → recent start (xs ++ ys) ≡ recent start xs + recent start ys
recent-append start [] ys = omega arith
recent-append start (x ∷ xs) ys = ground (arith, recent-append start xs ys)

-- Trimming at an instant of the window drops none of these.
recent-retain :
    (window start now : ℕ) (xs : List ℕ)
    → now ≤ start + window
    → recent start (retain (fresh window now) xs) ≡ recent start xs
recent-retain window start now [] h = refl
recent-retain window start now (x ∷ xs) h = ground (arith, recent-retain window start now xs h)

recent-le : (start : ℕ) (xs : List ℕ) → recent start xs ≤ length xs
recent-le start [] = omega arith
recent-le start (x ∷ xs) = ground (arith, recent-le start xs)

-- An answer and what is allowed after it stay within what was allowed before.
abbrev pub Spends :
    RateLimiter → ℕ → Str → Option (List ℕ) → Result (Unit {0}) × RateLimiter → Type 0
Spends limiter start key found (answer, after) =
    (if is_ok answer then 1 else 0)
      + allowance limiter.max_requests start (lookup key after.buckets)
    ≤ allowance limiter.max_requests start found

admit-Spends-none :
    (limiter : RateLimiter) (start now : ℕ) (key : Str) (buckets : Map Str (List ℕ))
    → 0 < limiter.max_requests
    → start ≤ now
    → Spends limiter start key none (admit limiter now key [] buckets)
unfolding admit
admit-Spends-none limiter start now key buckets some_max h =
    elim (Bool-cases (leb limiter.max_requests 0)) [
      | inl full ↦ absurd (ground arith)
      | inr room ↦ rw room (rw (lookup-insert_self key (now ∷ []) buckets) (ground arith))
    ]

admit-Spends-some :
    (limiter : RateLimiter) (start now : ℕ) (key : Str) (instants : List ℕ)
    (buckets : Map Str (List ℕ))
    → start ≤ now
    → Spends limiter start key (some instants) (admit limiter now key instants buckets)
unfolding admit
admit-Spends-some limiter start now key instants buckets h =
    elim (Bool-cases (leb limiter.max_requests (length instants))) [
      | inl full ↦ rw full (rw (lookup-insert_self key instants buckets) (omega arith))
      | inr room ↦ rw room (
          rw (lookup-insert_self key (instants ++ now ∷ []) buckets) (
            rw (recent-append start instants (now ∷ []))
              (ground (arith, recent-le start instants))))
    ]

decide-Spends :
    (limiter : RateLimiter) (start now : ℕ) (key : Str) (found : Option (List ℕ))
    (buckets : Map Str (List ℕ))
    → 0 < limiter.max_requests
    → start ≤ now
    → lookup key buckets ≡ found
    → Spends limiter start key found (decide limiter now key found buckets)
unfolding decide
decide-Spends limiter start now key none buckets some_max h e =
    elim (Bool-cases (ltb 100000 (length buckets))) [
      | inl crowded ↦ rw crowded (rw e (omega arith))
      | inr room ↦ rw room (admit-Spends-none limiter start now key buckets some_max h)
    ]
decide-Spends limiter start now key (some []) buckets some_max h e =
    ground (arith, lookup-remove key key buckets, list_beq_iff key key)
decide-Spends limiter start now key (some (x ∷ xs)) buckets some_max h e =
    elim (Bool-cases (ltb 100000 (length buckets))) [
      | inl crowded ↦ rw crowded (rw e (omega arith))
      | inr room ↦ rw room (admit-Spends-some limiter start now key (x ∷ xs) buckets h)
    ]

pub lookup-trim :
    (window now : ℕ) (key : Str) (buckets : Map Str (List ℕ))
    → lookup key (trim window now key buckets)
      ≡ Option.map (λ instants. retain (fresh window now) instants) (lookup key buckets)
unfolding trim
lookup-trim window now key buckets = elim (Option-cases (lookup key buckets)) [
  | inl e ↦ ground (arith, e)
  | inr (instants, e) ↦
      ground (arith, e, lookup-insert_self key (retain (fresh window now) instants) buckets)
]

allowance-trim :
    (max window start now : ℕ) (found : Option (List ℕ))
    → now ≤ start + window
    → allowance max start (Option.map (λ instants. retain (fresh window now) instants) found)
      ≡ allowance max start found
allowance-trim max window start now none h = refl
allowance-trim max window start now (some instants) h =
    rw (recent-retain window start now instants h) refl

pub check-Spends :
    (limiter : RateLimiter) (start now : ℕ) (key : Str)
    → 0 < limiter.max_requests
    → start ≤ now
    → now ≤ start + limiter.window
    → Spends limiter start key (lookup key limiter.buckets) (check limiter now key)
unfolding check
check-Spends limiter start now key some_max h k =
    let buckets = trim limiter.window now key limiter.buckets in
    let spends = decide-Spends limiter start now key (lookup key buckets) buckets some_max h refl in
    let same : allowance limiter.max_requests start (lookup key buckets)
        ≡ allowance limiter.max_requests start (lookup key limiter.buckets) =
      ap (allowance limiter.max_requests start) (lookup-trim limiter.window now key limiter.buckets)
      ∙ allowance-trim limiter.max_requests limiter.window start now (lookup key limiter.buckets)
          k in
    rw same at spends

-- What a check leaves as it was: the parameters, and the buckets of other keys.
abbrev pub Leaves : RateLimiter → Str → RateLimiter → Type 0
Leaves limiter other after =
    (after.window ≡ limiter.window)
    × (after.max_requests ≡ limiter.max_requests)
    × (lookup other after.buckets ≡ lookup other limiter.buckets)

decide-Leaves :
    (limiter : RateLimiter) (now : ℕ) (key other : Str) (found : Option (List ℕ))
    (buckets : Map Str (List ℕ))
    → list_beq key other ≡ false
    → lookup other buckets ≡ lookup other limiter.buckets
    → Leaves limiter other (decide limiter now key found buckets).1
unfolding decide admit
decide-Leaves limiter now key other none buckets ne e =
    ground
      (arith, e, ne, lookup-insert key other [] buckets, lookup-insert key other (now ∷ []) buckets)
decide-Leaves limiter now key other (some []) buckets ne e =
    (refl, refl, lookup-remove key other buckets ∙ rw ne e)
decide-Leaves limiter now key other (some (x ∷ xs)) buckets ne e = ground (
  arith,
  e,
  ne,
  lookup-insert key other (x ∷ xs) buckets,
  lookup-insert key other (x ∷ (xs ++ now ∷ [])) buckets,
)

trim-other :
    (window now : ℕ) (key other : Str) (buckets : Map Str (List ℕ))
    → list_beq key other ≡ false
    → lookup other (trim window now key buckets) ≡ lookup other buckets
unfolding trim
trim-other window now key other buckets ne = elim (Option-cases (lookup key buckets)) [
  | inl e ↦ ground (arith, e)
  | inr (instants, e) ↦
      ground (arith, e, ne, lookup-insert key other (retain (fresh window now) instants) buckets)
]

pub check-Leaves :
    (limiter : RateLimiter) (now : ℕ) (key other : Str)
    → list_beq key other ≡ false
    → Leaves limiter other (check limiter now key).1
unfolding check
check-Leaves limiter now key other ne =
    let buckets = trim limiter.window now key limiter.buckets in
    decide-Leaves limiter now key other (lookup key buckets) buckets ne
      (trim-other limiter.window now key other limiter.buckets ne)

-- The parameters stay whatever the key.
decide-parameters :
    (limiter : RateLimiter) (now : ℕ) (key : Str) (found : Option (List ℕ))
    (buckets : Map Str (List ℕ))
    → ((decide limiter now key found buckets).1.window ≡ limiter.window)
      × ((decide limiter now key found buckets).1.max_requests ≡ limiter.max_requests)
unfolding decide admit
decide-parameters limiter now key none buckets = ground arith
decide-parameters limiter now key (some []) buckets = (refl, refl)
decide-parameters limiter now key (some (x ∷ xs)) buckets = ground arith

pub check-parameters :
    (limiter : RateLimiter) (now : ℕ) (key : Str)
    → ((check limiter now key).1.window ≡ limiter.window)
      × ((check limiter now key).1.max_requests ≡ limiter.max_requests)
unfolding check
check-parameters limiter now key =
    let buckets = trim limiter.window now key limiter.buckets in
    decide-parameters limiter now key (lookup key buckets) buckets
