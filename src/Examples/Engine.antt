-- ===== src/Examples/Engine.antt =====
-- A datastore in memory with a catalog, a schema, a topic and a view, opened, changed and dropped.
use ella.Prelude.{
  ◌+◌, ◌≡◌, refl, codes, eq_text, true, false, none, some, List, [], ◌∷◌, arith, length, All,
}
use ella.Prelude.BTreeMap
use ella.Prelude.DashMap
use ella.Prelude.DashMap.Laws.{IsUnique}
use ella.Prelude.Result.{ok, err, table_closed}
use ella.Registry.Id.{Ident, TableId, table_of}
use ella.Registry.Info.{ViewInfo, topic, view}
use ella.Registry.LogApi.{LogApi}
use ella.Registry.Snapshot.{Snapshot, commit_all}
use ella.Engine.Outcome.{done, failed, blocked, engine}
use ella.Engine.Table.{EllaTopic, EllaView, EllaTable, topic_table, view_table, id_of}
use ella.Engine.World.{EllaSchema, EllaCatalog, Services}
use ella.Engine.Schema
use ella.Engine.Cluster.{EllaCluster, deregister_catalog}
use ella.Engine.State.{create_table_as, table_in}
use ella.Engine.Tree.{tree, IsCatalogs}
use ella.Engine.Load.{table_new, load_catalogs}
use ella.Engine.Agrees.{Agrees, IsRising}
use ella.Engine.Agrees.Statements.{create_table_as-Agrees}
use ella.Engine.Lookup.{After, create_table_as-table_in}
use ella.Engine.Loaded.{IsStoredCatalog, IsDistinct, load_catalogs-tree}
use ella.Engine.Drop.{deregister_catalog-blocked, drop_view-refused}
use ella.Examples.Data.{externals, memory_log, table_id, topic_info, shard, config}

err-ne-ok : err table_closed ≡ ok (tt {0}) → ⊥
err-ne-ok h = cc

abbrev services : Services memory_log
services = record {
  root = codes "root";
  fresh = λ n. n + 100;
  bucket = λ i. length i;
  close_topic = λ t w. ((t, w), done tt);
  plan_columns = λ p. [];
  resolve_plan = λ p m. done p;
}

rising : IsRising services.fresh
rising n = omega arith

abbrev view_info : ViewInfo externals
view_info = record {
  plan = 3;
  definition = none;
  materialized = false;
  index = none;
  config = none;
}

abbrev topic_t : EllaTopic externals
topic_t = record {
  table = table_id;
  info = topic_info;
  path = codes "root/c/s/t";
  sorting = some [];
  shards = some ((10, shard 10) ∷ (11, shard 11) ∷ []);
}

abbrev view_id : TableId
view_id = record { catalog = codes "c"; schema = codes "s"; table = codes "v" }

abbrev view_v : EllaView externals
view_v = record { table = view_id; info = view_info; sorting = none; plan = some 3 }

abbrev schema_s : EllaSchema externals
schema_s = record {
  id = record { catalog = codes "c"; schema = codes "s" };
  tables = (codes "t", topic_table topic_t) ∷ (codes "v", view_table view_v) ∷ [];
}

abbrev catalog_c : EllaCatalog externals
catalog_c = record { id = record { id = codes "c" }; schemas = (codes "s", schema_s) ∷ [] }

abbrev cluster : EllaCluster memory_log
cluster = record { catalogs = (codes "c", catalog_c) ∷ []; world = record { log = []; drawn = 0 } }

abbrev base : Snapshot externals
base = record {
  uuid = 1;
  last_transaction = some 5;
  catalogs = tree externals services.root cluster.catalogs;
  config = config;
}

filed : IsCatalogs cluster.catalogs
unfolding DashMap.get id_of table_of eq_text
filed =
    (((refl, ((refl, ((refl, (refl, tt)), (refl, (refl, tt)))), tt), (refl, tt)), tt), (refl, tt))

agrees : Agrees services base cluster
unfolding commit_all
agrees = record {
  snapshot = base;
  replays = refl;
  same = refl;
  filed = filed;
  after_base = refl;
  newest = tt;
}

to_catalog : DashMap.get (codes "c") cluster.catalogs ≡ some catalog_c
unfolding DashMap.get eq_text
to_catalog = refl

to_schema : DashMap.get (codes "s") catalog_c.schemas ≡ some schema_s
unfolding DashMap.get eq_text
to_schema = refl

abbrev new_id : TableId
new_id = record { catalog = codes "c"; schema = codes "s"; table = codes "w" }

create_table_as-Agrees_example :
    Agrees services base (create_table_as services new_id (view view_info) true false cluster).0
create_table_as-Agrees_example =
    create_table_as-Agrees services base rising cluster agrees new_id (view view_info) true tt

dropped : (Schema.drop_view services (codes "v") false (schema_s, cluster.world)).1 ≡ done tt
unfolding Schema.drop_view DashMap.get eq_text
dropped = refl

create_table_as-table_in_example :
    After
      (λ d x. table_in table_id d ≡ some x)
      (create_table_as services table_id (topic topic_info) false true cluster)
create_table_as-table_in_example =
    create_table_as-table_in services table_id (topic topic_info) false true cluster

deregister_catalog-blocked_example : deregister_catalog services (codes "c") true cluster ≡ (
  record { catalogs = DashMap.remove (codes "c") cluster.catalogs; world = cluster.world },
  blocked,
)
deregister_catalog-blocked_example =
    deregister_catalog-blocked services (codes "c") catalog_c schema_s [] cluster to_catalog refl

-- A log that is closed.
abbrev closed_log : LogApi externals
closed_log = record {
  Log = Unit;
  commit = λ t l. (l, err table_closed);
  replayed = λ l. [];
  replayed-commit = λ t l h n. absurd (err-ne-ok h);
  replayed-commit_err = λ t l e h. refl;
}

abbrev closed : Services closed_log
closed = record {
  root = codes "root";
  fresh = λ n. n + 100;
  bucket = λ i. length i;
  close_topic = λ t w. ((t, w), done tt);
  plan_columns = λ p. [];
  resolve_plan = λ p m. done p;
}

abbrev one_view : EllaSchema externals
one_view = record {
  id = record { catalog = codes "c"; schema = codes "s" };
  tables = (codes "v", view_table view_v) ∷ [];
}

there : DashMap.get (codes "v") one_view.tables ≡ some (view_table view_v)
unfolding DashMap.get eq_text
there = refl

unique : IsUnique one_view.tables
unfolding DashMap.get
unique = (refl, tt)

drop_view-refused_example :
    ((Schema.drop_view closed (codes "v") true (one_view, record { log = tt; drawn = 0 })).1
      ≡ failed (engine table_closed))
    × (Schema.table
          (codes "v")
          (Schema.drop_view closed (codes "v") true (one_view, record { log = tt; drawn = 0 })).0.0
        ≡ none)
    × (closed_log.replayed
          (Schema.drop_view closed
            (codes "v")
            true
            (one_view, record { log = tt; drawn = 0 })).0.1.log
        ≡ [])
drop_view-refused_example =
    drop_view-refused closed (codes "v") true one_view (record { log = tt; drawn = 0 }) view_v
      table_closed there unique refl

builds_topic : (x : EllaTable externals) × (table_new services table_id (topic topic_info) ≡ done x)
unfolding table_new BTreeMap.insert
builds_topic = (topic_table topic_t, refl)

builds_view : (x : EllaTable externals) × (table_new services view_id (view view_info) ≡ done x)
unfolding table_new
builds_view = (view_table (record view_v { plan = none }), refl)

stored : All (IsStoredCatalog services) base.catalogs
unfolding tree eq_text BTreeMap.values
stored = (
  (
    refl,
    (
      (
        refl,
        (
          ((refl, (omega arith, tt), (refl, tt, tt)), builds_topic.0, builds_topic.1),
          ((tt, builds_view.0, builds_view.1), tt),
        ),
        ((refl, tt), (tt, tt)),
      ),
      tt,
    ),
    (tt, tt),
  ),
  tt,
)

distinct : IsDistinct (λ c. c.id.id) base.catalogs
unfolding tree
distinct = (tt, tt)

load_catalogs-tree_example :
    (m : List (Ident × EllaCatalog externals)) × (load_catalogs services base.catalogs ≡ done m)
    × (tree externals services.root m ≡ base.catalogs)
load_catalogs-tree_example = load_catalogs-tree services base.catalogs stored distinct
