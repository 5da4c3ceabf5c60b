-- ===== src/Router/Tests.antt =====
-- The cache of models at a model with one row.
use secureprompt.Prelude.{◌≡◌, refl, none, some, [], ◌∷◌, ◌++◌, ◌+◌, ◌*◌, ◌^◌}
use secureprompt.Text.{lit}
use secureprompt.Types.{ok}
use secureprompt.Router.{ModelTarget, ConfigCache, resolve_model, with_targets, get_model}
use secureprompt.Router.Cache.{IsRegisteredCache, IsServed, resolve_model-IsRegisteredCache}

abbrev row : ModelTarget Unit
row = record {
  model_id = 5;
  workspace_id = 2;
  provider_id = 3;
  provider_name = lit "openai";
  provider_type = lit "openai";
  model_name = lit "gpt";
  encrypted_credential = none;
  config = tt;
}

abbrev empty_cache : ConfigCache Unit
empty_cache = record { api_keys = []; models = [] }

resolve_model-IsRegisteredCache_example :
    let p =
      resolve_model Unit (λ id. lit "w") 7 2 (lit "gpt") (ok (row ∷ [])) (ok []) empty_cache in
    let key = lit "w" ++ (lit ":" ++ lit "gpt") in
    IsRegisteredCache Unit (p.1)
    × IsServed Unit 7 key empty_cache
        (with_targets Unit 7 key 2 (lit "gpt") (ok []) empty_cache (ok (row ∷ [])))
        p
resolve_model-IsRegisteredCache_example =
    resolve_model-IsRegisteredCache Unit (λ id. lit "w") 7 2 (lit "gpt") (ok (row ∷ [])) (ok [])
      empty_cache (refl, tt) tt

-- Sixty seconds later the model is still served.
served_again :
    get_model Unit
      (7 + 60 * 10 ^ 9)
      (lit "w:gpt")
      ((resolve_model Unit (λ id. lit "w") 7 2 (lit "gpt") (ok (row ∷ [])) (ok []) empty_cache).1)
    ≡ some (record { public_model = lit "gpt"; targets = row ∷ [] })
unfolding resolve_model
served_again = refl
