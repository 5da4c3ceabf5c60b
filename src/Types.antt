-- ===== src/Types.antt =====
-- secureprompt-common/src/types.rs and errors.rs: the values that the components pass on, the
-- token vault, and results. A call ends by a value, by an `ApiError`, or by a panic.
use secureprompt.Prelude.{
  ℕ, zero, Bool, true, false, Option, List, [], ◌∷◌, leb, map, nat_keyed, list_keyed,
}
use secureprompt.Text.{Str, replace}
use secureprompt.Map.{Map, lookup, insert}

-- An IEEE float. A finite one is an integer multiple of 2^-1074, with its sign.
pub data Float : Type 0 where
  nan : Float
  finite : (negative : Bool) → ℕ → Float
  infinite : (negative : Bool) → Float

-- `a >= b` on floats; a comparison with NaN is false. `f64::from` keeps the value of an `f32`.
unfoldable pub float_ge : Float → Float → Bool
float_ge nan b = false
float_ge (finite s m) nan = false
float_ge (infinite s) nan = false
float_ge (infinite false) b = true
float_ge (infinite true) (infinite true) = true
float_ge (infinite true) (infinite false) = false
float_ge (infinite true) (finite t n) = false
float_ge (finite s m) (infinite t) = t
float_ge (finite false m) (finite false n) = leb n m
float_ge (finite false m) (finite true n) = true
float_ge (finite true m) (finite true n) = leb m n
float_ge (finite true zero) (finite false zero) = true
float_ge (finite true m) (finite false n) = false

abbrev pub WorkspaceId : Type 0
WorkspaceId = ℕ

abbrev pub RequestId : Type 0
RequestId = ℕ

abbrev pub Uuid : Type 0
Uuid = ℕ

pub record Detection : Type 0 where
  pub class : Str
  pub confidence : Float
  pub span : Option (ℕ × ℕ)
  pub value : Str

pub record PolicyEvent : Type 0 where
  pub rule_id : Uuid
  pub rule_name : Str
  pub action : Str
  pub dry_run : Bool

pub record PolicyResult : Type 0 where
  pub final_action : Str
  pub events : List PolicyEvent

pub record Message : Type 0 where
  pub role : Str
  pub content : Str

pub data ApiError : Type 0 where
  not_found unauthorized forbidden bad_request not_implemented internal : Str → ApiError
  database budget_exceeded service_unavailable conflict too_many_requests : Str → ApiError

-- `panic` is a panic of the thread, such as a slice off a character boundary.
pub data Result {ℓ} (A : Type ℓ) : Type ℓ where
  ok : A → Result A
  err : ApiError → Result A
  panic : Result A

infixl 5 ◌>>=◌
abbrev pub ◌>>=◌ {ℓ κ} : {A : Type ℓ} {B : Type κ} → Result A → (A → Result B) → Result B
ok a >>= f = f a
err e >>= f = err e
panic >>= f = panic

-- `TokenVault`: from placeholder to original value.
abbrev pub TokenVault : Type 0
TokenVault = Map Str Str

unfoldable pub vault_insert : Str → Str → TokenVault → TokenVault
unfolding insert
vault_insert placeholder original v = insert placeholder original v

unfoldable pub resolve : Str → TokenVault → Option Str
unfolding lookup
resolve placeholder v = lookup placeholder v

-- The values behind the placeholders.
unfoldable pub original_values : TokenVault → List Str
original_values v = map (λ e. e.1) v

-- Each placeholder is replaced in turn, in the order of the map.
unfoldable pub restore : TokenVault → Str → Str
restore [] content = content
restore ((placeholder, original) ∷ v) content = restore v (replace placeholder original content)
