-- ===== src/Registry/Snapshot/Invariant.antt =====
-- The invariant of the catalog tree (ella-engine/src/registry/snapshot.rs).
use ella.Prelude.{
  ℕ, ◌≡◌, refl, Bool, true, not, Option, none, some, List, [], ◌∷◌, ◌==◌, arith, All, All-append,
  retain, eq_text, eq_text_sound, inl, inr, Bool-cases, sym,
}
use ella.Prelude.Result.{EngineError, Result, ok, err, ◌>>=◌, Result-cases}
use ella.External.{External}
use ella.Registry.Id.{Ident, SchemaId, TableId, schema_id}
use ella.Registry.Info.{
  ShardInfo, TopicInfo, TableInfo, topic, view, close, shard_mut, insert_shard,
}
use ella.Registry.Info.Shards.{insert_shard_lem, shard_mut_lem, with_shards}
use ella.Registry.Info.Ordered.{
  IsShardList, Holds, insert-IsShardList, modify-IsShardList, retain-IsShardList,
}
use ella.Registry.Transaction.{
  Transaction, create_catalog, create_schema, create_table, create_shard, close_shard, delete_shard,
  compact_shards, drop_table, drop_schema, drop_catalog, shard_of_create, shard_of_compact,
}
use ella.Registry.Snapshot.{
  Snapshot, CatalogState, SchemaState, TableState, modify_first, schema_mut, topic_mut, on_topic,
  in_catalog, in_schema, in_topic, apply, commit, commit_all, outdated, settle, uuid,
}

abbrev pub OkSatisfies {ℓ κ} : {A : Type ℓ} → (A → Type κ) → Result A → Type κ
OkSatisfies P (ok a) = P a
OkSatisfies P (err e) = Unit

module _ {X : External} where
  -- A table's entry: its shards are ordered by id and belong to it.
  abbrev pub IsInfo : TableId → TableInfo X → Type 0
  IsInfo i (topic t) = IsShardList i t.shards
  IsInfo i (view v) = Unit

  abbrev pub IsTable : SchemaId → TableState X → Type 0
  IsTable i t = (schema_id t.id ≡ i) × IsInfo t.id t.info

  abbrev pub IsSchema : Ident → SchemaState X → Type 0
  IsSchema c s = (s.id.catalog ≡ c) × All (IsTable s.id) s.tables

  abbrev pub IsCatalog : CatalogState X → Type 0
  IsCatalog c = All (IsSchema c.id.id) c.schemas

  -- Every schema and table is filed under the ids that it carries, and every topic's shards are
  -- ordered by id and belong to it.
  abbrev pub IsTree : List (CatalogState X) → Type 0
  IsTree = All IsCatalog

pub OkSatisfies-bind {ℓ κ μ ν} :
    {A : Type ℓ} {B : Type κ} (P : A → Type μ) (Q : B → Type ν) (m : Result A) (f : A → Result B)
    → OkSatisfies P m
    → ((a : A) → P a → OkSatisfies Q (f a))
    → OkSatisfies Q (m >>= f)
OkSatisfies-bind P Q (ok a) f h k = k a h
OkSatisfies-bind P Q (err e) f h k = tt

pub modify_first-All {ℓ κ} :
    {A : Type ℓ} (P : A → Type κ) (p : A → Bool) (e : EngineError) (f : A → Result A)
    → ((a : A) → p a ≡ true → P a → OkSatisfies P (f a))
    → (xs : List A) → All P xs
    → OkSatisfies (All P) (modify_first p e f xs)
unfolding modify_first
modify_first-All P p e f h [] a = tt
modify_first-All P p e f h (x ∷ xs) a = elim (Bool-cases (p x)) [
  | inl t ↦ rw t (OkSatisfies-bind P (All P) (f x) _ (h x t a.0) (λ y b. (b, a.1)))
  | inr t ↦ rw t (
      OkSatisfies-bind (All P) (All P) (modify_first p e f xs) _ (modify_first-All P p e f h xs a.1)
        (λ ys b. (a.0, b)))
]

All-retain {ℓ κ} :
    {A : Type ℓ} (P : A → Type κ) (p : A → Bool) (xs : List A) → All P xs → All P (retain p xs)
All-retain P p [] a = tt
All-retain P p (x ∷ xs) a = ground (arith, All-retain P p xs a.1)

same_table :
    (t i : TableId) (s : SchemaId)
    → schema_id t ≡ s
    → s ≡ schema_id i
    → eq_text t.table i.table ≡ true
    → t ≡ i
unfolding schema_id
same_table t i s p q e = ground (arith, eq_text_sound t.table i.table e)

module _ {X : External} where
  in_catalog-IsTree :
      (i : Ident) (f : CatalogState X → Result (CatalogState X)) (cs : List (CatalogState X))
      → ((c : CatalogState X) → c.id.id ≡ i → IsCatalog c → OkSatisfies IsCatalog (f c))
      → IsTree cs
      → OkSatisfies IsTree (in_catalog i f cs)
  unfolding in_catalog
  in_catalog-IsTree i f cs h a =
      modify_first-All IsCatalog _ _ f (λ c t. h c (eq_text_sound c.id.id i t)) cs a

  schema_mut-IsCatalog :
      (i : SchemaId) (f : SchemaState X → Result (SchemaState X)) (c : CatalogState X)
      → c.id.id ≡ i.catalog
      → ((s : SchemaState X)
          → s.id ≡ i
          → IsSchema i.catalog s
          → OkSatisfies (IsSchema i.catalog) (f s))
      → IsCatalog c
      → OkSatisfies IsCatalog (schema_mut i.schema f c)
  unfolding schema_mut
  schema_mut-IsCatalog i f c e h a =
      OkSatisfies-bind (All (IsSchema i.catalog)) IsCatalog _ _
        (modify_first-All (IsSchema i.catalog) _ _ f
          (λ s t b. h s (ground (arith, eq_text_sound s.id.schema i.schema t)) b) c.schemas
          (rw e at a))
        (λ ss b. rw e b)

  in_schema-IsTree :
      (i : SchemaId) (f : SchemaState X → Result (SchemaState X)) (cs : List (CatalogState X))
      → ((s : SchemaState X)
          → s.id ≡ i
          → IsSchema i.catalog s
          → OkSatisfies (IsSchema i.catalog) (f s))
      → IsTree cs
      → OkSatisfies IsTree (in_schema i f cs)
  unfolding in_schema
  in_schema-IsTree i f cs h a =
      in_catalog-IsTree i.catalog (schema_mut i.schema f) cs
        (λ c e b. schema_mut-IsCatalog i f c e h b) a

  on_topic-IsTable :
      (j : SchemaId) (i : TableId) (f : TopicInfo X → Result (TopicInfo X)) (t : TableInfo X)
      → schema_id i ≡ j
      → ((t : TopicInfo X)
          → IsShardList i t.shards
          → OkSatisfies (λ u. IsShardList i u.shards) (f t))
      → IsInfo i t
      → OkSatisfies (IsTable j) (on_topic i f t)
  on_topic-IsTable j i f (topic t) e h a =
      OkSatisfies-bind (λ u. IsShardList i u.shards) (IsTable j) (f t) _ (h t a) (λ u b. (e, b))
  on_topic-IsTable j i f (view v) e h a = tt

  in_topic-IsTree :
      (i : TableId) (f : TopicInfo X → Result (TopicInfo X)) (cs : List (CatalogState X))
      → ((t : TopicInfo X)
          → IsShardList i t.shards
          → OkSatisfies (λ u. IsShardList i u.shards) (f t))
      → IsTree cs
      → OkSatisfies IsTree (in_topic i f cs)
  unfolding in_topic schema_id
  in_topic-IsTree i f cs h a =
      in_schema-IsTree (schema_id i) _ cs
        (λ s e b.
          OkSatisfies-bind (All (IsTable s.id)) (IsSchema i.catalog) _ _
            (modify_first-All (IsTable s.id) _ _ (topic_mut f)
              (λ t p c.
                on_topic-IsTable s.id t.id f t.info c.0 (rw (same_table t.id i s.id c.0 e p) h) c.1)
              s.tables b.1)
            (λ ts c. (b.0, c)))
        a

  -- What `with_shards` returns satisfies what the option of shards holds.
  with_shards-Holds :
      (i : TableId) (t : TopicInfo X) (o : Option (List (ShardInfo X))) (e : EngineError)
      → Holds (IsShardList i) o
      → OkSatisfies (λ u. IsShardList i u.shards) (with_shards t o (err e))
  with_shards-Holds i t none e h = tt
  with_shards-Holds i t (some ss) e h = h

  insert_shard-IsShardList :
      (i : TableId) (s : ShardInfo X) (t : TopicInfo X)
      → s.table ≡ i
      → IsShardList i t.shards
      → OkSatisfies (λ u. IsShardList i u.shards) (insert_shard s t)
  insert_shard-IsShardList i s t e h =
      rw (insert_shard_lem s t) (with_shards-Holds i t _ _ (insert-IsShardList i s t.shards e h))

  close_shard-IsShardList :
      (i : TableId) (k n : ℕ) (t : TopicInfo X)
      → IsShardList i t.shards
      → OkSatisfies (λ u. IsShardList i u.shards) (shard_mut k (λ s. close s n) t)
  unfolding close
  close_shard-IsShardList i k n t h = rw (shard_mut_lem k (λ s. close s n) t) (
      with_shards-Holds i t _ _
        (modify-IsShardList (λ s. close s n) (λ s. refl) (λ s. refl) i k t.shards h))

  -- The shards of a created table are in order; a built topic has none.
  abbrev pub IsFresh : Transaction X → Type 0
  IsFresh (create_table t) = IsInfo t.id t.info
  IsFresh _ = Unit

  apply-IsTree :
      (t : Transaction X) (cs : List (CatalogState X))
      → IsFresh t
      → IsTree cs
      → OkSatisfies IsTree (apply t cs)
  unfolding apply
  apply-IsTree (create_catalog t) cs f h = All-append IsCatalog cs _ h (tt, tt)
  apply-IsTree (create_schema t) cs f h =
      in_catalog-IsTree t.id.catalog _ cs
        (λ c e b. All-append (IsSchema c.id.id) c.schemas _ b ((sym e, tt), tt)) h
  apply-IsTree (create_table t) cs f h =
      in_schema-IsTree (schema_id t.id) _ cs
        (λ s e b. (b.0, All-append (IsTable s.id) s.tables _ b.1 ((sym e, f), tt))) h
  apply-IsTree (create_shard t) cs f h =
      in_topic-IsTree t.table _ cs
        (λ i b. insert_shard-IsShardList t.table (shard_of_create t) i refl b) h
  apply-IsTree (close_shard t) cs f h =
      in_topic-IsTree t.table _ cs (λ i b. close_shard-IsShardList t.table t.shard t.rows i b) h
  apply-IsTree (delete_shard t) cs f h =
      in_topic-IsTree t.table
        (λ i. ok (record i { shards = retain (λ s. not (s.id == t.shard)) i.shards })) cs
        (λ i b. retain-IsShardList (λ s. not (s.id == t.shard)) t.table i.shards b) h
  apply-IsTree (compact_shards t) cs f h =
      in_topic-IsTree t.table _ cs
        (λ i b. insert_shard-IsShardList t.table (shard_of_compact t) i refl b) h
  apply-IsTree (drop_table t) cs f h =
      in_schema-IsTree (schema_id t.id) _ cs
        (λ s e b. (b.0, All-retain (IsTable s.id) _ s.tables b.1)) h
  apply-IsTree (drop_schema t) cs f h =
      in_catalog-IsTree t.id.catalog _ cs (λ c e b. All-retain (IsSchema c.id.id) _ c.schemas b) h
  apply-IsTree (drop_catalog t) cs f h = All-retain IsCatalog _ cs h

  settle-IsTree :
      (s : Snapshot X) (r : Result (List (CatalogState X)))
      → IsTree s.catalogs
      → OkSatisfies IsTree r
      → IsTree (settle s r).0.catalogs
  settle-IsTree s (ok cs) h k = k
  settle-IsTree s (err e) h k = h

  -- A commit, whether it succeeds, fails or skips an outdated transaction, keeps the tree in order.
  pub commit-IsTree :
      (t : Transaction X) (s : Snapshot X)
      → IsFresh t
      → IsTree s.catalogs
      → IsTree (commit t s).0.catalogs
  unfolding commit
  commit-IsTree t s f h = elim (Bool-cases (outdated (uuid t) s.last_transaction)) [
    | inl o ↦ rw o h
    | inr o ↦ rw o (settle-IsTree _ (apply t s.catalogs) h (apply-IsTree t s.catalogs f h))
  ]

  -- Replaying a log whose created tables have their shards in order, from a snapshot in order, ends in
  -- a snapshot whose tree is in order: every schema and table is filed under the ids that it carries,
  -- and every topic's shards have rising ids and belong to it. It does so also when the replay ends
  -- at a failing transaction.
  pub commit_all-IsTree :
      (ts : List (Transaction X)) (s : Snapshot X)
      → All IsFresh ts
      → IsTree s.catalogs
      → IsTree (commit_all ts s).0.catalogs
  unfolding commit_all
  commit_all-IsTree [] s f h = h
  commit_all-IsTree (t ∷ ts) s f h =
      let kept = commit-IsTree t s f.0 h in
      elim (Result-cases (commit t s).1) [
        | inl (_, e) ↦ rw (e, commit_all) (commit_all-IsTree ts (commit t s).0 f.1 kept)
        | inr (_, e) ↦ rw (e, commit_all) kept
      ]
