-- ===== src/Registry/Info/Shards.antt =====
-- The searched insertion and modification of a topic's shards (`insert_shard`, `shard_mut` of
-- ella-engine/src/table/info.rs), against one scan of the vector.
use ella.Prelude.{ℕ, ◌≡◌, refl, Option, none, some, List, [], ◌∷◌, ltb, ◌==◌, if◌then◌else◌, arith}
use ella.Prelude.Result.{Result, ok, err, shard_exists, shard_not_found}
use ella.External.{External}
use ella.Registry.Info.{
  ShardInfo, TopicInfo, Search, found, missing, later, search_shard, shard_mut, insert_shard,
  insert_at, modify_at,
}

abbrev pub push_front {ℓ} : {A : Type ℓ} → A → Option (List A) → Option (List A)
push_front x none = none
push_front x (some xs) = some (x ∷ xs)

module _ {X : External} where
  -- Insertion of a shard whose id is new, and modification of one that is there.
  unfoldable pub insert : ShardInfo X → List (ShardInfo X) → Option (List (ShardInfo X))
  insert s [] = some (s ∷ [])
  insert s (x ∷ xs) =
      let rest = push_front x (insert s xs) in
      if s.id == x.id then none else if ltb s.id x.id then some (s ∷ x ∷ xs) else rest

  unfoldable pub modify :
      ℕ → (ShardInfo X → ShardInfo X) → List (ShardInfo X) → Option (List (ShardInfo X))
  modify k f [] = none
  modify k f (x ∷ xs) =
      let rest = push_front x (modify k f xs) in
      if k == x.id then some (f x ∷ xs) else if ltb k x.id then none else rest

  abbrev inserted : ShardInfo X → Search → List (ShardInfo X) → Option (List (ShardInfo X))
  inserted s (found i) xs = none
  inserted s (missing i) xs = some (insert_at i s xs)

  abbrev modified :
      (ShardInfo X → ShardInfo X) → Search → List (ShardInfo X) → Option (List (ShardInfo X))
  modified f (found i) xs = some (modify_at i f xs)
  modified f (missing i) xs = none

  inserted-later :
      (s x : ShardInfo X) (r : Search) (xs : List (ShardInfo X))
      → inserted s (later r) (x ∷ xs) ≡ push_front x (inserted s r xs)
  inserted-later s x (found i) xs = refl
  inserted-later s x (missing i) xs = refl

  modified-later :
      (f : ShardInfo X → ShardInfo X) (x : ShardInfo X) (r : Search) (xs : List (ShardInfo X))
      → modified f (later r) (x ∷ xs) ≡ push_front x (modified f r xs)
  modified-later f x (found i) xs = refl
  modified-later f x (missing i) xs = refl

  insert-search :
      (s : ShardInfo X) (xs : List (ShardInfo X))
      → inserted s (search_shard s.id xs) xs ≡ insert s xs
  unfolding search_shard insert
  insert-search s [] = refl
  insert-search s (x ∷ xs) =
      ground (arith, inserted-later s x (search_shard s.id xs) xs, insert-search s xs)

  modify-search :
      (k : ℕ) (f : ShardInfo X → ShardInfo X) (xs : List (ShardInfo X))
      → modified f (search_shard k xs) xs ≡ modify k f xs
  unfolding search_shard modify
  modify-search k f [] = refl
  modify-search k f (x ∷ xs) =
      ground (arith, modified-later f x (search_shard k xs) xs, modify-search k f xs)

  abbrev pub with_shards :
      TopicInfo X → Option (List (ShardInfo X)) → (e : Result (TopicInfo X)) → Result (TopicInfo X)
  with_shards t none e = e
  with_shards t (some ss) e = ok (record t { shards = ss })

  insert_shard_cases :
      (s : ShardInfo X) (t : TopicInfo X) (r : Search)
      → search_shard s.id t.shards ≡ r
      → insert_shard s t ≡ with_shards t (inserted s r t.shards) (err (shard_exists s.id))
  unfolding insert_shard
  insert_shard_cases s t (found i) e = ground arith
  insert_shard_cases s t (missing i) e = ground arith

  pub insert_shard_lem :
      (s : ShardInfo X) (t : TopicInfo X)
      → insert_shard s t ≡ with_shards t (insert s t.shards) (err (shard_exists s.id))
  insert_shard_lem s t = rw (insert_shard_cases s t _ refl, insert-search s t.shards) refl

  shard_mut_cases :
      (k : ℕ) (f : ShardInfo X → ShardInfo X) (t : TopicInfo X) (r : Search)
      → search_shard k t.shards ≡ r
      → shard_mut k f t ≡ with_shards t (modified f r t.shards) (err (shard_not_found k))
  unfolding shard_mut
  shard_mut_cases k f t (found i) e = ground arith
  shard_mut_cases k f t (missing i) e = ground arith

  pub shard_mut_lem :
      (k : ℕ) (f : ShardInfo X → ShardInfo X) (t : TopicInfo X)
      → shard_mut k f t ≡ with_shards t (modify k f t.shards) (err (shard_not_found k))
  shard_mut_lem k f t = rw (shard_mut_cases k f t _ refl, modify-search k f t.shards) refl
