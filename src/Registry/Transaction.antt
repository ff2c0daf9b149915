-- ===== src/Registry/Transaction.antt =====
-- ella-engine/src/registry/transactions.rs: the transactions of the log. `TransactionId::new` and
-- `ShardId::new` enter as arguments, `uuid` and `shard`; ids are the 128-bit numbers of their UUIDs.
use ella.Prelude.{ℕ, Text, Option, none, some, List, [], ◌∷◌}
use ella.External.{External}
use ella.Registry.Id.{CatalogId, SchemaId, TableId}
use ella.Registry.Info.{TableInfo, TopicInfo, ViewInfo, ShardInfo, topic, view, new_shard}

module _ (X : External) where
  pub record CreateCatalog : Type 0 where
    pub uuid : ℕ
    pub id : CatalogId
    pub path : X.UrlPath

  pub record CreateSchema : Type 0 where
    pub uuid : ℕ
    pub id : SchemaId
    pub path : X.UrlPath

  pub record CreateTable : Type 0 where
    pub uuid : ℕ
    pub id : TableId
    pub info : TableInfo X

  pub record CreateShard : Type 0 where
    pub uuid : ℕ
    pub table : TableId
    pub shard : ℕ
    pub file_schema : X.Schema
    pub path : X.UrlPath

  pub record CompactShards : Type 0 where
    pub uuid : ℕ
    pub table : TableId
    pub src : List ℕ
    pub dst : ℕ
    pub file_schema : X.Schema
    pub path : X.UrlPath

pub record CloseShard : Type 0 where
  pub uuid : ℕ
  pub table : TableId
  pub shard : ℕ
  pub rows : ℕ

pub record DeleteShard : Type 0 where
  pub uuid : ℕ
  pub table : TableId
  pub shard : ℕ

pub record DropTable : Type 0 where
  pub uuid : ℕ
  pub id : TableId

pub record DropSchema : Type 0 where
  pub uuid : ℕ
  pub id : SchemaId

pub record DropCatalog : Type 0 where
  pub uuid : ℕ
  pub id : CatalogId

pub data Transaction (X : External) : Type 0 where
  create_catalog : CreateCatalog X → Transaction X
  create_schema : CreateSchema X → Transaction X
  create_table : CreateTable X → Transaction X
  create_shard : CreateShard X → Transaction X
  close_shard : CloseShard → Transaction X
  delete_shard : DeleteShard → Transaction X
  compact_shards : CompactShards X → Transaction X
  drop_table : DropTable → Transaction X
  drop_schema : DropSchema → Transaction X
  drop_catalog : DropCatalog → Transaction X

module _ {X : External} where
  -- `Transaction::uuid`
  unfoldable pub uuid : Transaction X → ℕ
  uuid (create_catalog t) = t.uuid
  uuid (create_schema t) = t.uuid
  uuid (create_table t) = t.uuid
  uuid (create_shard t) = t.uuid
  uuid (close_shard t) = t.uuid
  uuid (delete_shard t) = t.uuid
  uuid (compact_shards t) = t.uuid
  uuid (drop_table t) = t.uuid
  uuid (drop_schema t) = t.uuid
  uuid (drop_catalog t) = t.uuid

  -- `CreateCatalog::new`, `CreateSchema::new`
  unfoldable pub new_catalog : ℕ → CatalogId → X.UrlPath → CreateCatalog X
  new_catalog u i root = record { uuid = u; id = i; path = X.join root i.id }

  unfoldable pub new_schema : ℕ → SchemaId → X.UrlPath → CreateSchema X
  new_schema u i root = record { uuid = u; id = i; path = X.join (X.join root i.catalog) i.schema }

  -- `CreateTable::topic`, `CreateTable::view`
  unfoldable pub new_topic : ℕ → TableId → TopicInfo X → CreateTable X
  new_topic u i t = record { uuid = u; id = i; info = topic t }

  unfoldable pub new_view : ℕ → TableId → ViewInfo X → CreateTable X
  new_view u i v = record { uuid = u; id = i; info = view v }

  -- `CreateShard::new` and `CompactShards::new`; `file` is the name that `encode_path` gives to the
  -- new shard. The second panics on an empty list of sources (`none`).
  unfoldable pub new_create_shard : ℕ → ℕ → Text → TableId → X.Schema → X.UrlPath → CreateShard X
  new_create_shard u s file table schema root = record {
    uuid = u;
    table = table;
    shard = s;
    file_schema = schema;
    path = X.join root file;
  }

  unfoldable pub new_compact_shards :
      ℕ → ℕ → Text → TableId → List ℕ → X.Schema → X.UrlPath → Option (CompactShards X)
  new_compact_shards u d file table [] schema root = none
  new_compact_shards u d file table (s ∷ ss) schema root = some (record {
    uuid = u;
    table = table;
    src = s ∷ ss;
    dst = d;
    file_schema = schema;
    path = X.join root file;
  })

  -- `From<CreateShard>` and `From<CompactShards>` for `ShardInfo`
  unfoldable pub shard_of_create : CreateShard X → ShardInfo X
  unfolding new_shard
  shard_of_create t = new_shard t.shard t.table t.file_schema t.path

  unfoldable pub shard_of_compact : CompactShards X → ShardInfo X
  unfolding new_shard
  shard_of_compact t = new_shard t.dst t.table t.file_schema t.path
