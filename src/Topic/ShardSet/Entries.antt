-- ===== src/Topic/ShardSet/Entries.antt =====
-- A topic's ordered shards as the entries of the `BTreeMap` of ella-engine/src/table/topic/shard.rs.
use ella.Prelude.{
  ℕ, ◌≡◌, refl, ap, Option, none, some, List, [], ◌∷◌, not, retain, ◌==◌, arith, ◌<◌, ◌≢◌,
}
use ella.Prelude.BTreeMap
use ella.External.{External}
use ella.Registry.Id.{TableId}
use ella.Registry.Info.{ShardInfo}
use ella.Registry.Info.Shards.{insert, modify, push_front}
use ella.Registry.Info.Ordered.{IsShardList, Above}

module _ {X : External} where
  abbrev pub entries : List (ShardInfo X) → List (ℕ × ShardInfo X)
  entries [] = []
  entries (s ∷ ss) = (s.id, s) ∷ entries ss

  push_front-entries :
      (x : ShardInfo X) (o : Option (List (ShardInfo X))) (ss : List (ShardInfo X))
      (m : List (ℕ × ShardInfo X))
      → ((rs : List (ShardInfo X)) → o ≡ some rs → m ≡ entries rs)
      → push_front x o ≡ some ss
      → (x.id, x) ∷ m ≡ entries ss
  push_front-entries x none ss m h e = cc
  push_front-entries x (some rs) ss m h e = ground (arith, h rs refl)

  -- Inserting a new shard in the vector inserts its entry in the map.
  pub insert-entries :
      (s : ShardInfo X) (ss rs : List (ShardInfo X))
      → insert s ss ≡ some rs
      → BTreeMap.insert s.id s (entries ss) ≡ entries rs
  unfolding insert BTreeMap.insert
  insert-entries s [] rs e = ground arith
  insert-entries s (x ∷ xs) rs e =
      ground (arith, push_front-entries x (insert s xs) rs _ (insert-entries s xs))

  -- Modifying a shard of the vector modifies its entry.
  pub modify-entries :
      (k : ℕ) (f : ShardInfo X → ShardInfo X) (keep_id : (s : ShardInfo X) → (f s).id ≡ s.id)
      (ss rs : List (ShardInfo X))
      → modify k f ss ≡ some rs
      → BTreeMap.modify k f (entries ss) ≡ entries rs
  unfolding modify BTreeMap.modify
  modify-entries k f keep_id [] rs e = cc
  modify-entries k f keep_id (x ∷ xs) rs e =
      ground (
        arith,
        keep_id x,
        push_front-entries x (modify k f xs) rs _ (modify-entries k f keep_id xs),
      )

  retain-Above :
      (k : ℕ) (ss : List (ShardInfo X)) → Above k ss → retain (λ s. not (s.id == k)) ss ≡ ss
  retain-Above k [] a = refl
  retain-Above k (x ∷ xs) a = ground (arith, retain-Above k xs a.1)

  -- Removing an id from the ordered vector removes its entry.
  pub remove-entries :
      (i : TableId) (k : ℕ) (ss : List (ShardInfo X))
      → IsShardList i ss
      → BTreeMap.remove k (entries ss) ≡ entries (retain (λ s. not (s.id == k)) ss)
  unfolding BTreeMap.remove
  remove-entries i k [] h = refl
  remove-entries i k (x ∷ xs) h =
      ground (arith, ap entries (retain-Above x.id xs h.1), remove-entries i k xs h.2)

  get-Above :
      (k j : ℕ) (ss : List (ShardInfo X)) → k < j → Above j ss → BTreeMap.get k (entries ss) ≡ none
  unfolding BTreeMap.get
  get-Above k j [] h a = refl
  get-Above k j (x ∷ xs) h a = ground (arith, get-Above k j xs h a.1)

  push_front-ne-none :
      (x : ShardInfo X) (o : Option (List (ShardInfo X))) → o ≢ none → push_front x o ≢ none
  push_front-ne-none x none h e = h refl
  push_front-ne-none x (some ss) h e = cc

  -- The insertion succeeds where the id is not in the map.
  pub insert-ne-none :
      (s : ShardInfo X) (ss : List (ShardInfo X))
      → BTreeMap.get s.id (entries ss) ≡ none
      → insert s ss ≢ none
  unfolding insert BTreeMap.get
  insert-ne-none s [] h e = cc
  insert-ne-none s (x ∷ xs) h e =
      ground (
        arith,
        λ (k : insert s xs ≢ none). push_front-ne-none x (insert s xs) k,
        insert-ne-none s xs,
      )

  -- The modification succeeds exactly where the id is in the map.
  pub modify-ne-none :
      (i : TableId) (k : ℕ) (f : ShardInfo X → ShardInfo X) (ss : List (ShardInfo X))
      → IsShardList i ss
      → BTreeMap.get k (entries ss) ≢ none
      → modify k f ss ≢ none
  unfolding modify BTreeMap.get
  modify-ne-none i k f [] h g e = absurd (g refl)
  modify-ne-none i k f (x ∷ xs) h g e = ground (
    arith,
    get-Above k x.id xs,
    λ (n : modify k f xs ≢ none). push_front-ne-none x (modify k f xs) n,
    modify-ne-none i k f xs h.2,
  )

  pub modify-eq-none :
      (k : ℕ) (f : ShardInfo X → ShardInfo X) (ss : List (ShardInfo X))
      → BTreeMap.get k (entries ss) ≡ none
      → modify k f ss ≡ none
  unfolding modify BTreeMap.get
  modify-eq-none k f [] g = refl
  modify-eq-none k f (x ∷ xs) g = ground (arith, modify-eq-none k f xs)
