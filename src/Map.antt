-- ===== src/Map.antt =====
-- `HashMap` as an association list in which a key stands once. The order of the list stands for
-- the order in which the map is iterated.
use secureprompt.Prelude.{
  ◌≡◌, refl, Option, none, some, List, [], ◌∷◌, arith, Keyed, ◌==◌, if◌then◌else◌,
}

abbrev pub Map {ℓ κ} : Type ℓ → Type κ → Type (ℓ ⊔ κ)
Map K V = List (K × V)

module _ {ℓ κ} {K : Type ℓ} {V : Type κ} ⦃e : Keyed K⦄ where
  unfoldable pub remove : K → Map K V → Map K V
  remove key [] = []
  remove key ((found, value) ∷ rest) =
      let others = remove key rest in if found == key then others else (found, value) ∷ others

  unfoldable pub lookup : K → Map K V → Option V
  lookup key [] = none
  lookup key ((found, value) ∷ rest) = if found == key then some value else lookup key rest

  unfoldable pub insert : K → V → Map K V → Map K V
  insert key value [] = (key, value) ∷ []
  insert key value ((found, old) ∷ rest) =
      let others = insert key value rest in
      if found == key then (found, value) ∷ rest else (found, old) ∷ others

  pub lookup-remove :
      (key other : K) (entries : Map K V)
      → lookup other (remove key entries) ≡ (if key == other then none else lookup other entries)
  unfolding lookup remove
  lookup-remove key other [] = ground arith
  lookup-remove key other ((k, w) ∷ entries) = ground (
    arith,
    e.same_iff key other,
    e.same_iff k key,
    e.same_iff k other,
    lookup-remove key other entries,
  )

  pub lookup-insert :
      (key other : K) (value : V) (entries : Map K V)
      → lookup other (insert key value entries)
        ≡ (if key == other then some value else lookup other entries)
  unfolding insert lookup
  lookup-insert key other value [] = refl
  lookup-insert key other value ((k, w) ∷ entries) = ground (
    arith,
    e.same_iff k key,
    e.same_iff k other,
    e.same_iff key other,
    lookup-insert key other value entries,
  )

  pub lookup-insert_self :
      (key : K) (value : V) (entries : Map K V) → lookup key (insert key value entries) ≡ some value
  lookup-insert_self key value entries =
      ground (arith, lookup-insert key key value entries, e.same_iff key key)
