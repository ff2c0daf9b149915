-- ===== src/Prelude/DashMap/Laws.antt =====
-- Lookups in a `DashMap` after its operations, and its values in a list.
use ella.Prelude.{
  Text, eq_text, eq_text_refl, eq_text_sound, ◌≡◌, refl, none, some, List, [], ◌∷◌, ◌++◌,
  if◌then◌else◌, All, arith,
}
use ella.Prelude.DashMap.{insert, get, modify, remove}

module _ {ℓ} {V : Type ℓ} where
  -- No two entries have the same key.
  abbrev pub IsUnique : List (Text × V) → Type ℓ
  IsUnique [] = Unit
  IsUnique ((k, v) ∷ m) = (get k m ≡ none) × IsUnique m

  pub get-insert :
      (j k : Text) (v : V) (m : List (Text × V))
      → get j (insert k v m) ≡ (if eq_text j k then some v else get j m)
  unfolding get insert
  get-insert j k v [] = refl
  get-insert j k v ((i, w) ∷ m) = ground (
    arith,
    eq_text_sound k i,
    eq_text_sound j i,
    eq_text_sound j k,
    eq_text_refl i,
    eq_text_refl k,
    get-insert j k v m,
  )

  pub get-insert_same : (k : Text) (v : V) (m : List (Text × V)) → get k (insert k v m) ≡ some v
  unfolding get insert
  get-insert_same k v [] = rw (eq_text_refl k) refl
  get-insert_same k v ((i, w) ∷ m) =
      ground (arith, eq_text_refl k, eq_text_sound k i, get-insert_same k v m)

  pub get-modify :
      (j k : Text) (f : V → V) (m : List (Text × V)) → get j m ≡ none → get j (modify k f m) ≡ none
  unfolding get modify
  get-modify j k f [] h = refl
  get-modify j k f ((i, w) ∷ m) h = ground (arith, get-modify j k f m)

  pub get-remove-none :
      (j k : Text) (m : List (Text × V)) → get j m ≡ none → get j (remove k m) ≡ none
  unfolding get remove
  get-remove-none j k [] h = refl
  get-remove-none j k ((i, w) ∷ m) h = ground (arith, get-remove-none j k m)

  pub get-remove :
      (j k : Text) (m : List (Text × V))
      → IsUnique m
      → get j (remove k m) ≡ (if eq_text j k then none else get j m)
  unfolding get remove
  get-remove j k [] h = ground arith
  get-remove j k ((i, w) ∷ m) h = ground (
    arith,
    h.0,
    eq_text_sound k i,
    eq_text_sound j i,
    eq_text_sound j k,
    eq_text_refl i,
    eq_text_refl k,
    get-remove j k m h.1,
  )

  pub remove-absent : (k : Text) (m : List (Text × V)) → get k m ≡ none → remove k m ≡ m
  unfolding get remove
  remove-absent k [] h = refl
  remove-absent k ((i, w) ∷ m) h = ground (arith, remove-absent k m)

  pub modify-same :
      (k : Text) (v : V) (m : List (Text × V)) → get k m ≡ some v → modify k (λ _. v) m ≡ m
  unfolding get modify
  modify-same k v [] h = cc
  modify-same k v ((i, w) ∷ m) h = ground (arith, modify-same k v m)

  pub modify-modify :
      (k : Text) (u v : V) (m : List (Text × V))
      → modify k (λ _. v) (modify k (λ _. u) m) ≡ modify k (λ _. v) m
  unfolding modify
  modify-modify k u v [] = refl
  modify-modify k u v ((i, w) ∷ m) = ground (arith, modify-modify k u v m)

  -- Looking up what was written.
  pub get-modify_same :
      (k : Text) (u v : V) (m : List (Text × V))
      → get k m ≡ some u
      → get k (modify k (λ _. v) m) ≡ some v
  unfolding get modify
  get-modify_same k u v [] h = cc
  get-modify_same k u v ((i, w) ∷ m) h = ground (arith, get-modify_same k u v m)

  -- A new key comes last.
  pub insert-absent :
      (k : Text) (v : V) (m : List (Text × V)) → get k m ≡ none → insert k v m ≡ m ++ (k, v) ∷ []
  unfolding get insert
  insert-absent k v [] h = refl
  insert-absent k v ((i, w) ∷ m) h = ground (arith, insert-absent k v m)

  pub insert-IsUnique :
      (k : Text) (v : V) (m : List (Text × V)) → IsUnique m → IsUnique (insert k v m)
  unfolding get insert
  insert-IsUnique k v [] h = (refl, tt)
  insert-IsUnique k v ((i, w) ∷ m) h = ground (
    arith,
    eq_text_sound k i,
    eq_text_sound i k,
    eq_text_refl i,
    get-insert i k v m,
    insert-IsUnique k v m h.1,
  )

  pub modify-IsUnique :
      (k : Text) (f : V → V) (m : List (Text × V)) → IsUnique m → IsUnique (modify k f m)
  unfolding get modify
  modify-IsUnique k f [] h = tt
  modify-IsUnique k f ((i, w) ∷ m) h = ground (arith, get-modify i k f m, modify-IsUnique k f m h.1)

  pub remove-IsUnique : (k : Text) (m : List (Text × V)) → IsUnique m → IsUnique (remove k m)
  unfolding get remove
  remove-IsUnique k [] h = tt
  remove-IsUnique k ((i, w) ∷ m) h = ground (arith, get-remove-none i k m, remove-IsUnique k m h.1)

  module _ {κ} (P : Text × V → Type κ) where
    pub get-All : (k : Text) (v : V) (m : List (Text × V)) → All P m → get k m ≡ some v → P (k, v)
    unfolding get
    get-All k v [] a h = cc
    get-All k v ((i, w) ∷ m) a h = ground (arith, a.0, eq_text_sound k i, get-All k v m a.1)

    pub insert-All :
        (k : Text) (v : V) (m : List (Text × V)) → P (k, v) → All P m → All P (insert k v m)
    unfolding insert
    insert-All k v [] p a = (p, tt)
    insert-All k v ((i, w) ∷ m) p a = ground (arith, insert-All k v m p a.1)

    pub modify-All :
        (k : Text) (f : V → V) (m : List (Text × V))
        → ((v : V) → P (k, v) → P (k, f v))
        → All P m
        → All P (modify k f m)
    unfolding modify
    modify-All k f [] h a = tt
    modify-All k f ((i, w) ∷ m) h a = ground (arith, h w, eq_text_sound k i, modify-All k f m h a.1)

    pub remove-All : (k : Text) (m : List (Text × V)) → All P m → All P (remove k m)
    unfolding remove
    remove-All k [] a = tt
    remove-All k ((i, w) ∷ m) a = ground (arith, remove-All k m a.1)
