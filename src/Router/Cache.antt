-- ===== src/Router/Cache.antt =====
-- secureprompt-api/src/http/model_router.rs: what the cache of models may hold, and for how long.
use secureprompt.Prelude.{
  ℕ, ◌+◌, ◌*◌, ◌^◌, ◌-◌, ◌≤◌, ◌≡◌, ◌⊎◌, inl, inr, refl, ap, Bool, true, false, Option, none, some,
  List, [], ◌∷◌, ◌++◌, All, arith, ltb, nat_beq, Keyed, ◌==◌, nat_keyed, list_keyed, if◌then◌else◌,
}
use secureprompt.Text.{Str, lit}
use secureprompt.Map.{Map, lookup, insert}
use secureprompt.Types.{WorkspaceId, Uuid, Result, ok, err, panic}
use secureprompt.Router.{
  cache_ttl, ModelTarget, ProviderRow, ResolvedModel, ConfigCache, is_registered, get_model,
  set_model, with_targets, resolve_model,
}

All-insert {ℓ κ ι} :
    {K : Type ℓ} {V : Type κ} ⦃e : Keyed K⦄ (P : V → Type ι) (key : K) (value : V) (m : Map K V)
    → P value
    → All (λ x. P (x.1)) m
    → All (λ x. P (x.1)) (insert key value m)
unfolding insert
All-insert P key value [] p h = (p, tt)
All-insert P key value ((k, w) ∷ m) p h = pick (k == key) (All-insert P key value m p h.1)
  where
    pick :
        (b : Bool)
        → All (λ x. P (x.1)) (insert key value m)
        → All (λ x. P (x.1)) (if b then (k, value) ∷ m else (k, w) ∷ insert key value m)
    pick true rest = (p, h.1)
    pick false rest = (h.0, rest)

module _ (Config : Type 0) where
  -- No model that was made up for a provider is in the cache.
  abbrev pub IsRegisteredCache : ConfigCache Config → Type 0
  IsRegisteredCache cache = All (λ e. is_registered Config (e.1.0) ≡ true) cache.models

  -- The rows of the database have identifiers.
  abbrev pub IsIdentified : Result (List (ModelTarget Config)) → Type 0
  IsIdentified (ok rows) = All (λ (t : ModelTarget Config). nat_beq t.model_id 0 ≡ false) rows
  IsIdentified (err e) = Unit
  IsIdentified panic = Unit

  get_model-fresh :
      (now : ℕ) (key : Str) (cache : ConfigCache Config) (m : ResolvedModel Config)
      → get_model Config now key cache ≡ some m
      → (at : ℕ) × (lookup key cache.models ≡ some (m, at)) × (now ≤ at + cache_ttl)
  unfolding get_model
  get_model-fresh now key cache m h = go (lookup key cache.models) h
    where
      young :
          (e : ResolvedModel Config × ℕ) (old : Bool)
          → ltb cache_ttl (now - e.1) ≡ old
          → ◌≡◌ {A = Option (ResolvedModel Config)} (if old then none else some (e.0)) (some m)
          → (e.0 ≡ m) × (now ≤ e.1 + cache_ttl)
      young e true o k = absurd (cc k)
      young e false o k = (cc k, ground (arith, o))

      go :
          (found : Option (ResolvedModel Config × ℕ))
          → ◌≡◌ {A = Option (ResolvedModel Config)}
              (elim found [
                | none ↦ none
                | some entry ↦ if ltb cache_ttl (now - entry.1) then none else some (entry.0)
              ])
              (some m)
          → (at : ℕ) × (found ≡ some (m, at)) × (now ≤ at + cache_ttl)
      go none k = absurd (cc k)
      go (some e) k =
          let (same, fresh) = young e (ltb cache_ttl (now - e.1)) refl k in
          (e.1, ap (λ x. some (x, e.1)) same, fresh)

  is_registered-cons :
      (public_model : Str) (t : ModelTarget Config) (ts : List (ModelTarget Config))
      → nat_beq t.model_id 0 ≡ false
      → is_registered Config (record { public_model = public_model; targets = t ∷ ts }) ≡ true
  unfolding is_registered
  is_registered-cons public_model t ts h = rw h refl

  with_targets-IsRegisteredCache :
      (now : ℕ) (key : Str) (workspace_id : WorkspaceId) (public_model : Str)
      (providers : Result (List (ProviderRow Config))) (cache : ConfigCache Config)
      (targets : Result (List (ModelTarget Config)))
      → IsIdentified targets
      → IsRegisteredCache cache
      → IsRegisteredCache
          ((with_targets Config now key workspace_id public_model providers cache targets).1)
  unfolding with_targets set_model
  with_targets-IsRegisteredCache now key workspace_id public_model providers cache (ok []) i h = h
  with_targets-IsRegisteredCache now key workspace_id public_model providers cache (ok (t ∷ ts)) i
        h =
      All-insert (λ v. is_registered Config (v.0) ≡ true) key _ cache.models
        (is_registered-cons public_model t ts (i.0)) h
  with_targets-IsRegisteredCache now key workspace_id public_model providers cache (err e) i h = h
  with_targets-IsRegisteredCache now key workspace_id public_model providers cache panic i h = h

  -- Where a model comes from: the cache, in which it was put at most sixty seconds ago, or what the
  -- database lists now.
  abbrev pub IsServed :
      ℕ
      → Str
      → ConfigCache Config
      → Result (ResolvedModel Config) × ConfigCache Config
      → Result (ResolvedModel Config) × ConfigCache Config
      → Type 0
  IsServed now key cache fresh p =
      (p ≡ fresh)
      ⊎ ((m : ResolvedModel Config) × (at : ℕ) × (p ≡ (ok m, cache))
          × (lookup key cache.models ≡ some (m, at))
          × (now ≤ at + 60 * 10 ^ 9))

  -- If no model that was made up for a provider is in the cache, and the rows of the database have
  -- identifiers, then none is in the cache afterwards; and what is resolved is either in the cache
  -- since at most sixty seconds, or made from what the database lists now.
  pub resolve_model-IsRegisteredCache :
      (show_uuid : Uuid → Str) (now : ℕ) (workspace_id : WorkspaceId) (public_model : Str)
      (targets : Result (List (ModelTarget Config)))
      (providers : Result (List (ProviderRow Config))) (cache : ConfigCache Config)
      → IsIdentified targets
      → IsRegisteredCache cache
      → let p =
          resolve_model Config show_uuid now workspace_id public_model targets providers cache in
        let key = show_uuid workspace_id ++ (lit ":" ++ public_model) in
        IsRegisteredCache (p.1)
        × IsServed now key cache
            (with_targets Config now key workspace_id public_model providers cache targets)
            p
  unfolding resolve_model
  resolve_model-IsRegisteredCache show_uuid now workspace_id public_model targets providers cache i
        h =
      go (get_model Config now key cache) refl
    where
      key : Str
      key = show_uuid workspace_id ++ (lit ":" ++ public_model)

      fresh : Result (ResolvedModel Config) × ConfigCache Config
      fresh = with_targets Config now key workspace_id public_model providers cache targets

      served : Option (ResolvedModel Config) → Result (ResolvedModel Config) × ConfigCache Config
      served o = elim o [ some cached ↦ (ok cached, cache) | none ↦ fresh ]

      go :
          (o : Option (ResolvedModel Config))
          → get_model Config now key cache ≡ o
          → IsRegisteredCache ((served o).1) × IsServed now key cache fresh (served o)
      go none e = (
        with_targets-IsRegisteredCache now key workspace_id public_model providers cache targets i
            h,
        inl refl,
      )
      go (some m) e =
          let (at, found, young) = get_model-fresh now key cache m e in
          (h, inr (m, at, refl, found, young))
