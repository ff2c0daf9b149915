-- ===== src/Registry/Info.antt =====
-- ella-engine/src/table/info.rs, with `Column` and `TableIndex` of ella-engine/src/table.rs,
-- `ShardInfo` of ella-engine/src/table/topic/shard.rs and `TensorType` of
-- ella-common/src/tensor_type.rs: what the registry keeps of a table. The shards of a topic are a
-- vector ordered by id, searched by `binary_search_by_key`.

pub mod Builder
pub mod Shards
pub mod Ordered
use ella.Prelude.{
  ℕ, zero, suc, Text, Bool, Option, none, some, List, [], ◌∷◌, ltb, ◌==◌, if◌then◌else◌,
}
use ella.Prelude.Result.{Result, ok, err, shard_exists, shard_not_found}
use ella.External.{External}
use ella.Config.{TableConfig}
use ella.Registry.Id.{TableId}

pub data TensorType : Type 0 where
  bool int8 int16 int32 int64 uint8 uint16 uint32 uint64 float32 float64 : TensorType
  timestamp duration string : TensorType

pub record Column : Type 0 where
  pub name : Text
  pub data_type : TensorType
  pub row_shape : Option (List ℕ)
  pub required : Bool

pub record TableIndex : Type 0 where
  pub column : Text
  pub ascending : Bool

pub record ShardInfo (X : External) : Type 0 where
  pub id : ℕ
  pub table : TableId
  pub file_schema : X.Schema
  pub path : X.UrlPath
  pub rows : Option ℕ

pub record TopicInfo (X : External) : Type 0 where
  pub columns : List Column
  pub index : List TableIndex
  pub temporary : Bool
  pub shards : List (ShardInfo X)
  pub config : Option TableConfig

pub record ViewInfo (X : External) : Type 0 where
  pub plan : X.Plan
  pub definition : Option Text
  pub materialized : Bool
  pub index : Option (List TableIndex)
  pub config : Option TableConfig

pub data TableInfo (X : External) : Type 0 where
  topic : TopicInfo X → TableInfo X
  view : ViewInfo X → TableInfo X

-- `ShardInfo::new`
unfoldable pub new_shard : {X : External} → ℕ → TableId → X.Schema → X.UrlPath → ShardInfo X
new_shard i t s p = record { id = i; table = t; file_schema = s; path = p; rows = none }

-- `ShardInfo::close`
unfoldable pub close : {X : External} → ShardInfo X → ℕ → ShardInfo X
close s n = record s { rows = some n }

-- The result of `binary_search_by_key`: the position of the key, or the one where it belongs.
pub data Search : Type 0 where
  found missing : ℕ → Search

abbrev pub later : Search → Search
later (found i) = found (suc i)
later (missing i) = missing (suc i)

-- `Vec::insert` at a position, and the write through `&mut shards[i]`.
abbrev pub insert_at {ℓ} : {A : Type ℓ} → ℕ → A → List A → List A
insert_at zero a xs = a ∷ xs
insert_at (suc i) a [] = a ∷ []
insert_at (suc i) a (x ∷ xs) = x ∷ insert_at i a xs

abbrev pub modify_at {ℓ} : {A : Type ℓ} → ℕ → (A → A) → List A → List A
modify_at i f [] = []
modify_at zero f (x ∷ xs) = f x ∷ xs
modify_at (suc i) f (x ∷ xs) = x ∷ modify_at i f xs

module _ {X : External} where
  -- On a vector that is ordered by id, as the method requires, the scan finds what it finds.
  unfoldable pub search_shard : ℕ → List (ShardInfo X) → Search
  search_shard k [] = missing 0
  search_shard k (s ∷ ss) =
      let rest = later (search_shard k ss) in
      if k == s.id then found 0 else if ltb k s.id then missing 0 else rest

  -- `shard_mut`, with what is done through the reference that it returns
  unfoldable pub shard_mut : ℕ → (ShardInfo X → ShardInfo X) → TopicInfo X → Result (TopicInfo X)
  unfolding search_shard
  shard_mut k f t = elim (search_shard k t.shards) [
    | found i ↦ ok (record t { shards = modify_at i f t.shards })
    | missing i ↦ err (shard_not_found k)
  ]

  unfoldable pub insert_shard : ShardInfo X → TopicInfo X → Result (TopicInfo X)
  unfolding search_shard
  insert_shard s t = elim (search_shard s.id t.shards) [
    | found i ↦ err (shard_exists s.id)
    | missing i ↦ ok (record t { shards = insert_at i s t.shards })
  ]
