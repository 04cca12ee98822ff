-- ===== src/Storage/Table.antt =====
-- `HashMap`, as far as the engine uses it: a list of entries with distinct keys. The order of the
-- list stands for the order in which the map's iterator visits its buckets.
pub mod Laws
pub mod Weights
use falcon_cache.Base.{
  ◌≡◌, Bool, true, false, ◌||◌, Option, none, some, List, [], ◌∷◌, if◌then◌else◌,
}
use falcon_cache.Base.Equality.{Eq}

module _ {ℓ κ} {K : Type ℓ} {V : Type κ} ⦃e : Eq K⦄ where
  -- `map.get(key)`
  unfoldable pub get : K → List (K × V) → Option V
  get k [] = none
  get k ((j, v) ∷ m) = if e.beq j k then some v else get k m

  -- `map.entry(key)`, then `occ.insert(value)` or `vac.insert(value)`.
  unfoldable pub put : K → V → List (K × V) → List (K × V)
  put k v [] = (k, v) ∷ []
  put k v ((j, u) ∷ m) = if e.beq j k then (j, v) ∷ m else (j, u) ∷ put k v m

  -- `map.remove(key)`, without the value that it returns, which is `get`'s.
  unfoldable pub remove : K → List (K × V) → List (K × V)
  remove k [] = []
  remove k ((j, u) ∷ m) = if e.beq j k then m else (j, u) ∷ remove k m

  -- No key stands twice.
  abbrev pub Distinct : List (K × V) → Type κ
  Distinct [] = Unit
  Distinct ((k, v) ∷ m) = (get k m ≡ none) × Distinct m

module _ {ℓ κ} {K : Type ℓ} {V : Type κ} ⦃e : Eq K⦄ where
  -- Whether a key stands first in a pair of the list.
  unfoldable pub has_key : K → List (K × V) → Bool
  has_key k [] = false
  has_key k ((j, u) ∷ m) = e.beq j k || has_key k m
