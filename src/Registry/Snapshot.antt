-- ===== src/Registry/Snapshot.antt =====
-- ella-engine/src/registry/snapshot.rs: the catalog tree, and the commit of a transaction to it. A
-- method that mutates through a reference returns the new value; the vectors are searched in order.
pub mod Invariant
pub mod Replay
pub mod Write
pub mod Lookup
pub mod Commit
pub mod Repeat
use ella.Prelude.{
  ℕ, codes, eq_text, Bool, false, not, Option, none, some, List, [], ◌∷◌, ◌++◌, ltb, ◌==◌,
  if◌then◌else◌, retain,
}
use ella.Prelude.Result.{
  EngineError, Result, ok, err, ◌>>=◌, catalog_not_found, schema_not_found, table_not_found,
  table_kind,
}
use ella.External.{External}
use ella.Config.{EllaConfig}
use ella.Registry.Id.{Ident, CatalogId, SchemaId, TableId, schema_id, eq_schema_id, eq_table_id}
use ella.Registry.Info.{TopicInfo, TableInfo, topic, view, close, shard_mut, insert_shard}
use ella.Registry.Transaction.{
  Transaction, create_catalog, create_schema, create_table, create_shard, close_shard, delete_shard,
  compact_shards, drop_table, drop_schema, drop_catalog, CreateCatalog, CreateSchema, CreateTable,
  uuid, shard_of_create, shard_of_compact,
}

pub record TableState (X : External) : Type 0 where
  pub id : TableId
  pub info : TableInfo X

pub record SchemaState (X : External) : Type 0 where
  pub id : SchemaId
  pub path : X.UrlPath
  pub tables : List (TableState X)

pub record CatalogState (X : External) : Type 0 where
  pub id : CatalogId
  pub path : X.UrlPath
  pub schemas : List (SchemaState X)

pub record Snapshot (X : External) : Type 0 where
  pub uuid : ℕ
  pub last_transaction : Option ℕ
  pub catalogs : List (CatalogState X)
  pub config : EllaConfig X

-- `iter_mut().find(p).ok_or(e)?`, with what is done through the reference that it returns.
unfoldable pub modify_first {ℓ} :
    {A : Type ℓ} → (A → Bool) → EngineError → (A → Result A) → List A → Result (List A)
modify_first p e f [] = err e
modify_first p e f (x ∷ xs) =
    let rest = modify_first p e f xs in
    if p x then (f x >>= λ y. ok (y ∷ xs)) else (rest >>= λ ys. ok (x ∷ ys))

-- `Some(id) < self.last_transaction`
abbrev pub outdated : ℕ → Option ℕ → Bool
outdated u none = false
outdated u (some l) = ltb u l

module _ {X : External} where
  -- `Snapshot::empty`, with the fresh snapshot id
  unfoldable pub empty : ℕ → EllaConfig X → Snapshot X
  empty u config = record { uuid = u; last_transaction = none; catalogs = []; config = config }

  -- `CatalogState::schema_mut`, `SchemaState::table_mut`, `TableState::topic_mut`
  unfoldable pub schema_mut :
      Ident → (SchemaState X → Result (SchemaState X)) → CatalogState X → Result (CatalogState X)
  schema_mut i f c =
      modify_first (λ s. eq_text s.id.schema i) (schema_not_found i) f c.schemas >>= λ ss.
      ok (record c { schemas = ss })

  unfoldable pub table_mut :
      Ident → (TableState X → Result (TableState X)) → SchemaState X → Result (SchemaState X)
  table_mut i f s =
      modify_first (λ t. eq_text t.id.table i) (table_not_found i) f s.tables >>= λ ts.
      ok (record s { tables = ts })

  abbrev pub on_topic :
      TableId → (TopicInfo X → Result (TopicInfo X)) → TableInfo X → Result (TableState X)
  on_topic i f (topic t) = f t >>= λ t'. ok (record { id = i; info = topic t' })
  on_topic i f (view v) = err (table_kind (codes "topic") (codes "view"))

  unfoldable pub topic_mut :
      (TopicInfo X → Result (TopicInfo X)) → TableState X → Result (TableState X)
  topic_mut f t = on_topic t.id f t.info

  -- `Snapshot::catalog_mut`, `Snapshot::schema_mut`, `Snapshot::table_mut`
  unfoldable pub in_catalog :
      Ident
      → (CatalogState X → Result (CatalogState X))
      → List (CatalogState X)
      → Result (List (CatalogState X))
  in_catalog i f = modify_first (λ c. eq_text c.id.id i) (catalog_not_found i) f

  unfoldable pub in_schema :
      SchemaId
      → (SchemaState X → Result (SchemaState X))
      → List (CatalogState X)
      → Result (List (CatalogState X))
  unfolding in_catalog schema_mut
  in_schema i f = in_catalog i.catalog (schema_mut i.schema f)

  unfoldable pub in_table :
      TableId
      → (TableState X → Result (TableState X))
      → List (CatalogState X)
      → Result (List (CatalogState X))
  unfolding in_schema table_mut
  in_table i f = in_schema (record { catalog = i.catalog; schema = i.schema }) (table_mut i.table f)

  unfoldable pub in_topic :
      TableId
      → (TopicInfo X → Result (TopicInfo X))
      → List (CatalogState X)
      → Result (List (CatalogState X))
  unfolding in_table topic_mut
  in_topic i f = in_table i (topic_mut f)

  -- `From<CreateCatalog> for CatalogState`, and its siblings
  unfoldable pub catalog_state : CreateCatalog X → CatalogState X
  catalog_state t = record { id = t.id; path = t.path; schemas = [] }

  unfoldable pub schema_state : CreateSchema X → SchemaState X
  schema_state t = record { id = t.id; path = t.path; tables = [] }

  unfoldable pub table_state : CreateTable X → TableState X
  table_state t = record { id = t.id; info = t.info }

  -- The handlers `Snapshot::create_catalog` to `Snapshot::drop_catalog`, on the catalogs.
  unfoldable pub apply : Transaction X → List (CatalogState X) → Result (List (CatalogState X))
  unfolding in_catalog in_schema in_table in_topic catalog_state schema_state table_state
      shard_of_create shard_of_compact close schema_id
  apply (create_catalog t) cs = ok (cs ++ catalog_state t ∷ [])
  apply (create_schema t) cs =
      in_catalog t.id.catalog (λ c. ok (record c { schemas = c.schemas ++ schema_state t ∷ [] })) cs
  apply (create_table t) cs =
      in_schema (schema_id t.id) (λ s. ok (record s { tables = s.tables ++ table_state t ∷ [] })) cs
  apply (create_shard t) cs = in_topic t.table (insert_shard (shard_of_create t)) cs
  apply (close_shard t) cs = in_topic t.table (shard_mut t.shard (λ s. close s t.rows)) cs
  apply (delete_shard t) cs =
      in_topic t.table
        (λ i. ok (record i { shards = retain (λ s. not (s.id == t.shard)) i.shards })) cs
  apply (compact_shards t) cs = in_topic t.table (insert_shard (shard_of_compact t)) cs
  apply (drop_table t) cs =
      in_catalog t.id.catalog
        (schema_mut t.id.schema
          (λ s. ok (record s { tables = retain (λ x. not (eq_table_id x.id t.id)) s.tables })))
        cs
  apply (drop_schema t) cs =
      in_catalog t.id.catalog
        (λ c. ok (record c { schemas = retain (λ s. not (eq_schema_id s.id t.id)) c.schemas })) cs
  apply (drop_catalog t) cs = ok (retain (λ c. eq_text c.id.id t.id.id) cs)

  abbrev pub settle : Snapshot X → Result (List (CatalogState X)) → Snapshot X × Result (Unit {0})
  settle s (ok cs) = (record s { catalogs = cs }, ok tt)
  settle s (err e) = (s, err e)

  -- `Snapshot::commit`: the transaction is recorded as the last one before its handler runs, and
  -- stays recorded when the handler fails.
  unfoldable pub commit : Transaction X → Snapshot X → Snapshot X × Result (Unit {0})
  commit t s =
      if outdated (uuid t) s.last_transaction
      then (s, ok tt)
      else settle (record s { last_transaction = some (uuid t) }) (apply t s.catalogs)

  abbrev pub refresh : ℕ → Snapshot X × Result (Unit {0}) → Snapshot X × Result (Unit {0})
  refresh u (s, ok _) = (record s { uuid = u }, ok tt)
  refresh u (s, err e) = (s, err e)

  -- `Snapshot::commit_one`, with the fresh snapshot id
  unfoldable pub commit_one : ℕ → Transaction X → Snapshot X → Snapshot X × Result (Unit {0})
  unfolding commit
  commit_one u t s = refresh u (commit t s)

  -- The loop of `commit_many` ends at the first error.
  unfoldable pub commit_all : List (Transaction X) → Snapshot X → Snapshot X × Result (Unit {0})
  commit_all [] s = (s, ok tt)
  commit_all (t ∷ ts) s = elim (commit t s).1 [
    | ok _ ↦ commit_all ts (commit t s).0
    | err e ↦ ((commit t s).0, err e)
  ]

  -- `Snapshot::commit_many`, with the fresh snapshot id
  unfoldable pub commit_many :
      ℕ → List (Transaction X) → Snapshot X → Snapshot X × Result (Unit {0})
  unfolding commit_all
  commit_many u ts s = refresh u (commit_all ts s)
