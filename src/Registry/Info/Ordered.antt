-- ===== src/Registry/Info/Ordered.antt =====
-- The shards of a topic (ella-engine/src/table/info.rs): their order, and looking them up.
use ella.Prelude.{
  refl, if◌then◌else◌, ℕ, ◌<◌, ◌≡◌, Option, none, some, List, [], ◌∷◌, ◌==◌, arith, All, find, Bool,
  ◌⊎◌, retain, not,
}
use ella.External.{External}
use ella.Registry.Id.{TableId}
use ella.Registry.Info.{ShardInfo}
use ella.Registry.Info.Shards.{insert, push_front, modify}

module _ {X : External} where
  -- Every id is greater than `k`.
  abbrev pub Above : ℕ → List (ShardInfo X) → Type 0
  Above k = All (λ (s : ShardInfo X). k < s.id)

  -- The ids rise strictly, and every shard belongs to the table.
  abbrev pub IsShardList : TableId → List (ShardInfo X) → Type 0
  IsShardList i [] = Unit
  IsShardList i (s ∷ ss) = (s.table ≡ i) × Above s.id ss × IsShardList i ss

  -- What an option of a list holds.
  abbrev pub Holds : (List (ShardInfo X) → Type 0) → Option (List (ShardInfo X)) → Type 0
  Holds P none = Unit
  Holds P (some ss) = P ss

  abbrev pub find_shard : ℕ → List (ShardInfo X) → Option (ShardInfo X)
  find_shard k = find (λ s. k == s.id)

  Above-mono : (j k : ℕ) (ss : List (ShardInfo X)) → j < k → Above k ss → Above j ss
  Above-mono j k [] h a = tt
  Above-mono j k (s ∷ ss) h a = (omega arith, Above-mono j k ss h a.1)

  Holds-push :
      (P Q : List (ShardInfo X) → Type 0) (x : ShardInfo X) (o : Option (List (ShardInfo X)))
      → ((ss : List (ShardInfo X)) → P ss → Q (x ∷ ss))
      → Holds P o
      → Holds Q (push_front x o)
  Holds-push P Q x none f h = tt
  Holds-push P Q x (some ss) f h = f ss h

  Above-insert :
      (k : ℕ) (s : ShardInfo X) (ss : List (ShardInfo X))
      → k < s.id
      → Above k ss
      → Holds (Above k) (insert s ss)
  unfolding insert
  Above-insert k s [] h a = (h, tt)
  Above-insert k s (x ∷ xs) h a = ground (
    arith,
    Holds-push (Above k) (Above k) x (insert s xs) (λ ss b. (a.0, b)) (Above-insert k s xs h a.1),
  )

  Holds-both :
      (P Q : List (ShardInfo X) → Type 0) (o : Option (List (ShardInfo X)))
      → Holds P o
      → Holds Q o
      → Holds (λ ss. P ss × Q ss) o
  Holds-both P Q none h k = tt
  Holds-both P Q (some ss) h k = (h, k)

  -- A new shard of the table is inserted in its place.
  pub insert-IsShardList :
      (i : TableId) (s : ShardInfo X) (ss : List (ShardInfo X))
      → s.table ≡ i
      → IsShardList i ss
      → Holds (IsShardList i) (insert s ss)
  unfolding insert
  insert-IsShardList i s [] e h = (e, tt, tt)
  insert-IsShardList i s (x ∷ xs) e h = ground (
    arith,
    Above-mono s.id x.id xs,
    λ (lt : x.id < s.id).
        Holds-push (λ ss. Above x.id ss × IsShardList i ss) (IsShardList i) x (insert s xs)
          (λ ss b. (h.0, b.0, b.1))
          (Holds-both (Above x.id) (IsShardList i) (insert s xs) (Above-insert x.id s xs lt h.1)
            (insert-IsShardList i s xs e h.2)),
  )

  module _ (f : ShardInfo X → ShardInfo X) (keep_id : (s : ShardInfo X) → (f s).id ≡ s.id)
      (keep_table : (s : ShardInfo X) → (f s).table ≡ s.table) where
    Above-modify :
        (k j : ℕ) (ss : List (ShardInfo X)) → Above j ss → Holds (Above j) (modify k f ss)
    unfolding modify
    Above-modify k j [] a = tt
    Above-modify k j (x ∷ xs) a = ground (
      arith,
      keep_id x,
      Holds-push (Above j) (Above j) x (modify k f xs) (λ ss b. (a.0, b)) (Above-modify k j xs a.1),
    )

    -- Writing to a shard, but not to its id or table, keeps the order.
    pub modify-IsShardList :
        (i : TableId) (k : ℕ) (ss : List (ShardInfo X))
        → IsShardList i ss
        → Holds (IsShardList i) (modify k f ss)
    unfolding modify
    modify-IsShardList i k [] h = tt
    modify-IsShardList i k (x ∷ xs) h = ground (
      arith,
      keep_id x,
      keep_table x,
      Holds-push (λ ss. Above x.id ss × IsShardList i ss) (IsShardList i) x (modify k f xs)
          (λ ss b. (h.0, b.0, b.1))
          (Holds-both (Above x.id) (IsShardList i) (modify k f xs) (Above-modify k x.id xs h.1)
            (modify-IsShardList i k xs h.2)),
    )

  Above-retain :
      (p : ShardInfo X → Bool) (k : ℕ) (ss : List (ShardInfo X))
      → Above k ss
      → Above k (retain p ss)
  Above-retain p k [] a = tt
  Above-retain p k (x ∷ xs) a = ground (arith, Above-retain p k xs a.1)

  pub retain-IsShardList :
      (p : ShardInfo X → Bool) (i : TableId) (ss : List (ShardInfo X))
      → IsShardList i ss
      → IsShardList i (retain p ss)
  retain-IsShardList p i [] h = tt
  retain-IsShardList p i (x ∷ xs) h =
      ground (arith, Above-retain p x.id xs h.1, retain-IsShardList p i xs h.2)

  pub find_shard-Above :
      (k j : ℕ) (ss : List (ShardInfo X)) → Above j ss → (k < j) ⊎ (k ≡ j) → find_shard k ss ≡ none
  find_shard-Above k j [] a h = refl
  find_shard-Above k j (x ∷ xs) a h = ground (arith, find_shard-Above k j xs a.1 h)

  abbrev pub Finds : ℕ → Option (ShardInfo X) → List (ShardInfo X) → Type 0
  Finds j r ss = find_shard j ss ≡ r

  -- Lookups after an insertion, a modification and a removal.
  pub find_shard-insert :
      (j : ℕ) (s : ShardInfo X) (ss : List (ShardInfo X))
      → Holds (Finds j (if j == s.id then some s else find_shard j ss)) (insert s ss)
  unfolding insert
  find_shard-insert j s [] = ground arith
  find_shard-insert j s (x ∷ xs) = ground (
    arith,
    Holds-push (Finds j (if j == s.id then some s else find_shard j xs))
        (Finds j (if j == x.id then some x else if j == s.id then some s else find_shard j xs)) x
        (insert s xs) (λ ss b. ground arith) (find_shard-insert j s xs),
  )

  abbrev pub map_shard : (ShardInfo X → ShardInfo X) → Option (ShardInfo X) → Option (ShardInfo X)
  map_shard f none = none
  map_shard f (some s) = some (f s)

  pub find_shard-modify :
      (f : ShardInfo X → ShardInfo X) (keep_id : (s : ShardInfo X) → (f s).id ≡ s.id) (j k : ℕ)
      (ss : List (ShardInfo X))
      → Holds
          (Finds j (if j == k then map_shard f (find_shard k ss) else find_shard j ss))
          (modify k f ss)
  unfolding modify
  find_shard-modify f keep_id j k [] = tt
  find_shard-modify f keep_id j k (x ∷ xs) = ground (
    arith,
    keep_id x,
    Holds-push (Finds j (if j == k then map_shard f (find_shard k xs) else find_shard j xs))
        (Finds j (
          if j == x.id
          then some x
          else if j == k
          then map_shard f (find_shard k xs)
          else find_shard j xs))
        x (modify k f xs) (λ ss b. ground arith) (find_shard-modify f keep_id j k xs),
  )

  pub find_shard-retain :
      (j k : ℕ) (ss : List (ShardInfo X))
      → find_shard j (retain (λ s. not (s.id == k)) ss) ≡ (if j == k then none else find_shard j ss)
  find_shard-retain j k [] = ground arith
  find_shard-retain j k (x ∷ xs) = ground (arith, find_shard-retain j k xs)
