-- ===== src/Router.antt =====
-- secureprompt-api/src/http/model_router.rs: the cache of models and API keys, and the choice of the
-- targets for a model. An instant is a number of nanoseconds; the lock is held for one operation.
-- What the database lists is an argument, and so is the text of a UUID.
mod Tests
pub mod Cache
use secureprompt.Prelude.{
  ℕ, ◌+◌, ◌-◌, ◌*◌, ◌^◌, Bool, true, false, not, Option, none, some, List, [], ◌∷◌, ◌++◌, ltb,
  nat_beq, is_empty, nat_keyed, list_keyed, if◌then◌else◌,
}
use secureprompt.Text.{Str, lit}
use secureprompt.Map.{Map, lookup, insert}
use secureprompt.Types.{WorkspaceId, Uuid, ApiError, Result, ok, err, panic, ◌>>=◌}

abbrev pub cache_ttl : ℕ
cache_ttl = 60 * 10 ^ 9

pub record CachedApiKey : Type 0 where
  pub api_key_id : Uuid
  pub workspace_id : WorkspaceId
  pub name : Str
  pub assigned_user_id : Option Uuid
  pub cached_at : ℕ

module _ (Config : Type 0) where
  pub record ModelTarget : Type 0 where
    pub model_id : Uuid
    pub workspace_id : WorkspaceId
    pub provider_id : Uuid
    pub provider_name : Str
    pub provider_type : Str
    pub model_name : Str
    pub encrypted_credential : Option Str
    pub config : Config

  pub record ProviderRow : Type 0 where
    pub id : Uuid
    pub name : Str
    pub provider_type : Str
    pub encrypted_credential : Option Str
    pub config : Config

  pub record ResolvedModel : Type 0 where
    pub public_model : Str
    pub targets : List ModelTarget

  unfoldable pub is_registered : ResolvedModel → Bool
  is_registered m = elim m.targets [ [] ↦ false | t ∷ ts ↦ not (nat_beq t.model_id 0) ]

  pub record ConfigCache : Type 0 where
    pub api_keys : Map Str CachedApiKey
    pub models : Map Str (ResolvedModel × ℕ)

  unfoldable pub get_api_key : ℕ → Str → ConfigCache → Option CachedApiKey
  unfolding lookup
  get_api_key now token cache = elim (lookup token cache.api_keys) [
    | none ↦ none
    | some entry ↦ if ltb cache_ttl (now - entry.cached_at) then none else some entry
  ]

  unfoldable pub set_api_key : Str → CachedApiKey → ConfigCache → ConfigCache
  unfolding insert
  set_api_key token value cache = record cache { api_keys = insert token value cache.api_keys }

  unfoldable pub get_model : ℕ → Str → ConfigCache → Option ResolvedModel
  unfolding lookup
  get_model now key cache = elim (lookup key cache.models) [
    | none ↦ none
    | some entry ↦ if ltb cache_ttl (now - entry.1) then none else some (entry.0)
  ]

  unfoldable pub set_model : ℕ → Str → ResolvedModel → ConfigCache → ConfigCache
  unfolding insert
  set_model now key value cache = record cache { models = insert key (value, now) cache.models }

  -- The target for a model without a row, at a provider of the workspace.
  unfoldable pub synthetic : WorkspaceId → Str → ProviderRow → ModelTarget
  synthetic workspace_id public_model p = record {
    model_id = 0;
    workspace_id = workspace_id;
    provider_id = p.id;
    provider_name = p.name;
    provider_type = p.provider_type;
    model_name = public_model;
    encrypted_credential = p.encrypted_credential;
    config = p.config;
  }

  unfoldable pub first_provider : WorkspaceId → Str → List ProviderRow → Result ResolvedModel
  unfolding synthetic
  first_provider workspace_id public_model [] =
      err (ApiError.not_found (lit "no provider configured for model " ++ public_model))
  first_provider workspace_id public_model (p ∷ ps) =
      ok
        record { public_model = public_model; targets = synthetic workspace_id public_model p ∷ [] }

  -- What is done with the targets that the database lists.
  unfoldable pub with_targets :
      ℕ
      → Str
      → WorkspaceId
      → Str
      → Result (List ProviderRow)
      → ConfigCache
      → Result (List ModelTarget)
      → Result ResolvedModel × ConfigCache
  unfolding first_provider set_model
  with_targets now key workspace_id public_model providers cache (ok []) =
      (providers >>= first_provider workspace_id public_model, cache)
  with_targets now key workspace_id public_model providers cache (ok (t ∷ ts)) =
      let resolved : ResolvedModel = record { public_model = public_model; targets = t ∷ ts } in
      (ok resolved, set_model now key resolved cache)
  with_targets now key workspace_id public_model providers cache (err e) = (err e, cache)
  with_targets now key workspace_id public_model providers cache panic = (panic, cache)

  unfoldable pub resolve_model :
      (Uuid → Str)
      → ℕ
      → WorkspaceId
      → Str
      → Result (List ModelTarget)
      → Result (List ProviderRow)
      → ConfigCache
      → Result ResolvedModel × ConfigCache
  unfolding get_model with_targets
  resolve_model show_uuid now workspace_id public_model targets providers cache =
      let key = show_uuid workspace_id ++ (lit ":" ++ public_model) in
      elim (get_model now key cache) [
        | some cached ↦ (ok cached, cache)
        | none ↦ with_targets now key workspace_id public_model providers cache targets
      ]
