-- ===== src/Prelude/BTreeMap.antt =====
-- `std::collections::BTreeMap` with numbers for keys: its entries in the order of the keys.
use ella.Prelude.{ℕ, ◌<◌, Option, none, some, List, [], ◌∷◌, map, ltb, ◌==◌, if◌then◌else◌, All}

module _ {ℓ} {V : Type ℓ} where
  unfoldable pub insert : ℕ → V → List (ℕ × V) → List (ℕ × V)
  insert k v [] = (k, v) ∷ []
  insert k v ((j, w) ∷ m) =
      let rest = insert k v m in
      if k == j then (k, v) ∷ m else if ltb k j then (k, v) ∷ (j, w) ∷ m else (j, w) ∷ rest

  unfoldable pub get : ℕ → List (ℕ × V) → Option V
  get k [] = none
  get k ((j, w) ∷ m) = let rest = get k m in if k == j then some w else rest

  -- `get_mut`, with the write through the reference; a missing key changes nothing.
  unfoldable pub modify : ℕ → (V → V) → List (ℕ × V) → List (ℕ × V)
  modify k f [] = []
  modify k f ((j, w) ∷ m) =
      let rest = modify k f m in if k == j then (j, f w) ∷ m else (j, w) ∷ rest

  unfoldable pub remove : ℕ → List (ℕ × V) → List (ℕ × V)
  remove k [] = []
  remove k ((j, w) ∷ m) = let rest = remove k m in if k == j then m else (j, w) ∷ rest

  unfoldable pub values : List (ℕ × V) → List V
  values = map (λ e. e.1)

  -- The keys rise strictly.
  abbrev pub IsOrdered : List (ℕ × V) → Type 0
  IsOrdered [] = Unit
  IsOrdered ((j, w) ∷ m) = All (λ (e : ℕ × V). j < e.0) m × IsOrdered m
