-- ===== src/Engine/Load.antt =====
-- Opening a datastore: the tree of ella-engine/src/cluster.rs, catalog.rs, schema.rs and table.rs that
-- `load` builds from a snapshot, the resolution of its views, and `EllaState::restore` of
-- ella-engine/src/engine/state.rs.
use ella.Prelude.{List, [], ◌∷◌, Text}
use ella.Prelude.DashMap
use ella.External.{External}
use ella.Config.{EllaConfig}
use ella.Registry.Id.{Ident, TableId}
use ella.Registry.Info.{TableInfo, topic, view}
use ella.Registry.LogApi.{LogApi}
use ella.Registry.Snapshot.{Snapshot, CatalogState, SchemaState}
use ella.Engine.Outcome.{Outcome, done, failed, panicked, blocked, bind, map_outcome, and_then}
use ella.Engine.Table.{EllaTable, topic_table, view_table, topic_new, view_new, set_plan}
use ella.Engine.World.{EllaSchema, EllaCatalog, World, Services}
use ella.Engine.Cluster.{EllaCluster}
use ella.Engine.State.{open_defaults}

-- The loop that `EllaSchema::load`, `EllaCatalog::load` and `EllaCluster::load` run over the parts of a
-- snapshot: each is loaded and put into the map under its id.
unfoldable pub load_each :
    {A S : Type 0}
    → (S → Text)
    → (S → Outcome A)
    → List S
    → List (Text × A)
    → Outcome (List (Text × A))
unfolding bind DashMap.insert
load_each key load [] m = done m
load_each key load (s ∷ ss) m =
    bind (load s) (λ a. load_each key load ss (DashMap.insert (key s) a m))

module _ {X : External} {L : LogApi X} (V : Services L) where
  -- `EllaTable::new` without resolving
  unfoldable pub table_new : TableId → TableInfo X → Outcome (EllaTable X)
  unfolding topic_new view_new map_outcome
  table_new i (topic t) = map_outcome topic_table (topic_new V.root i t)
  table_new i (view v) = map_outcome view_table (view_new (V.plan_columns v.plan) i v)

  -- `EllaSchema::load`, `EllaCatalog::load`
  unfoldable pub load_schema : SchemaState X → Outcome (EllaSchema X)
  unfolding table_new load_each map_outcome
  load_schema s =
      map_outcome (λ m. record { id = s.id; tables = m })
        (load_each (λ t. t.id.table) (λ t. table_new t.id t.info) s.tables [])

  unfoldable pub load_catalog : CatalogState X → Outcome (EllaCatalog X)
  unfolding load_schema load_each map_outcome
  load_catalog c =
      map_outcome (λ m. record { id = c.id; schemas = m })
        (load_each (λ s. s.id.schema) load_schema c.schemas [])

  -- The loop of `EllaCluster::load`
  unfoldable pub load_catalogs : List (CatalogState X) → Outcome (List (Ident × EllaCatalog X))
  unfolding load_catalog load_each
  load_catalogs cs = load_each (λ c. c.id.id) load_catalog cs []

  module _ (catalogs : List (Ident × EllaCatalog X)) where
    -- `EllaTable::resolve`; a plan is looked up among the tables that were loaded.
    unfoldable pub resolve_one : EllaTable X → Outcome (EllaTable X)
    unfolding set_plan map_outcome
    resolve_one (topic_table t) = done (topic_table t)
    resolve_one (view_table v) =
        map_outcome (λ p. view_table (set_plan p v)) (V.resolve_plan v.info.plan catalogs)

    -- The loops of `EllaSchema::resolve`, `EllaCatalog::resolve` and `EllaCluster::resolve`
    unfoldable pub resolve_tables :
        List (Ident × EllaTable X) → Outcome (List (Ident × EllaTable X))
    unfolding resolve_one bind map_outcome
    resolve_tables [] = done []
    resolve_tables ((k, t) ∷ m) =
        bind (resolve_one t) (λ u. map_outcome (λ n. (k, u) ∷ n) (resolve_tables m))

    unfoldable pub resolve_schemas :
        List (Ident × EllaSchema X) → Outcome (List (Ident × EllaSchema X))
    unfolding resolve_tables bind map_outcome
    resolve_schemas [] = done []
    resolve_schemas ((k, s) ∷ m) =
        bind (resolve_tables s.tables)
          (λ ts. map_outcome (λ n. (k, record s { tables = ts }) ∷ n) (resolve_schemas m))

    unfoldable pub resolve_catalogs :
        List (Ident × EllaCatalog X) → Outcome (List (Ident × EllaCatalog X))
    unfolding resolve_schemas bind map_outcome
    resolve_catalogs [] = done []
    resolve_catalogs ((k, c) ∷ m) =
        bind (resolve_schemas c.schemas)
          (λ ss. map_outcome (λ n. (k, record c { schemas = ss }) ∷ n) (resolve_catalogs m))

  -- `EllaCluster::load` of a new cluster
  unfoldable pub load_cluster : Snapshot X → Outcome (List (Ident × EllaCatalog X))
  unfolding load_catalogs resolve_catalogs bind
  load_cluster s = bind (load_catalogs s.catalogs) (λ m. resolve_catalogs m m)

  -- `EllaState::restore`, of the snapshot that `load_snapshot` gives
  unfoldable pub restore : EllaConfig X → Snapshot X → World L → EllaCluster L × Outcome (Unit {0})
  unfolding load_cluster open_defaults and_then
  restore config s w = elim (load_cluster s) [
    | done m ↦ open_defaults V config (record { catalogs = m; world = w })
    | failed e ↦ (record { catalogs = []; world = w }, failed e)
    | panicked ↦ (record { catalogs = []; world = w }, panicked)
    | blocked ↦ (record { catalogs = []; world = w }, blocked)
  ]
