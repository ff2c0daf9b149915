-- ===== src/Prelude/DashMap.antt =====
-- `dashmap::DashMap` keyed by texts, as an association list. The order of iteration, which the crate
-- leaves open, is that of first insertion here.
pub mod Laws
use ella.Prelude.{
  Text, eq_text, Bool, true, false, Option, none, some, List, [], ◌∷◌, map, if◌then◌else◌,
}

module _ {ℓ} {V : Type ℓ} where
  unfoldable pub insert : Text → V → List (Text × V) → List (Text × V)
  insert k v [] = (k, v) ∷ []
  insert k v ((j, w) ∷ m) =
      let rest = insert k v m in if eq_text k j then (k, v) ∷ m else (j, w) ∷ rest

  unfoldable pub get : Text → List (Text × V) → Option V
  get k [] = none
  get k ((j, w) ∷ m) = let rest = get k m in if eq_text k j then some w else rest

  -- What is done through a shared reference to the value, seen in the map.
  unfoldable pub modify : Text → (V → V) → List (Text × V) → List (Text × V)
  modify k f [] = []
  modify k f ((j, w) ∷ m) =
      let rest = modify k f m in if eq_text k j then (j, f w) ∷ m else (j, w) ∷ rest

  unfoldable pub remove : Text → List (Text × V) → List (Text × V)
  remove k [] = []
  remove k ((j, w) ∷ m) = let rest = remove k m in if eq_text k j then m else (j, w) ∷ rest

  unfoldable pub values : List (Text × V) → List V
  values = map (λ e. e.1)

  unfoldable pub is_empty : List (Text × V) → Bool
  is_empty [] = true
  is_empty (e ∷ m) = false
