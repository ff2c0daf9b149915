-- ===== src/Examples/Data.antt =====
-- A small datastore: the parameters of the model and a topic with two shards, in memory and in the log.
use ella.Prelude.{
  ℕ, ◌≡◌, refl, ◌≢◌, Text, codes, false, none, some, List, [], ◌∷◌, ◌++◌, arith, eq_text,
}
use ella.Prelude.BTreeMap
use ella.Prelude.Result.{EngineError, ok, err}
use ella.External.{External}
use ella.Config.{default_config, EllaConfig}
use ella.Registry.Id.{TableId, schema_id}
use ella.Registry.Info.{ShardInfo, TopicInfo, topic}
use ella.Registry.Uuid.{UuidCrate, four_bytes, two_bytes}
use ella.Registry.Transaction.{Transaction, CreateShard}
use ella.Registry.TransactionLog.{TransactionStore, sort_files}
use ella.Registry.LogApi.{LogApi}
use ella.Registry.Snapshot.{Snapshot, CatalogState, SchemaState, TableState, commit_all}
use ella.Registry.Snapshot.Lookup.{Leads}
use ella.Registry.Snapshot.Invariant.{IsTree}
use ella.Topic.ShardSet.{ShardSet}
use ella.Topic.ShardSet.Entries.{entries}
use ella.Topic.ShardSet.Refinement.{Agrees, IsFresh}

abbrev pub externals : External
externals = record {
  UrlPath = Text;
  join = λ p t. p ++ codes "/" ++ t;
  Schema = ℕ;
  Plan = ℕ;
  LogicalPlan = ℕ;
  SocketAddr = ℕ;
  Duration = ℕ;
}

abbrev pub uuids : UuidCrate
uuids = record {
  Uuid = List ℕ;
  from_fields = λ a b c d. four_bytes a (two_bytes b (two_bytes c d));
  as_bytes = λ u. u;
  hyphenated = λ u. u;
  as_bytes-from_fields = λ a b c d h k l. refl;
}

pub ok-ne-err : (e : EngineError) → ok (tt {0}) ≡ err e → ⊥
ok-ne-err e h = cc

-- A log in memory, which accepts every transaction.
abbrev pub memory_log : LogApi externals
memory_log = record {
  Log = List (Transaction externals);
  commit = λ t l. (l ++ t ∷ [], ok tt);
  replayed = λ l. l;
  replayed-commit = λ t l h n. refl;
  replayed-commit_err = λ t l e h. absurd (ok-ne-err e h);
}

abbrev pub table_id : TableId
table_id = record { catalog = codes "c"; schema = codes "s"; table = codes "t" }

abbrev pub shard : ℕ → ShardInfo externals
shard i = record { id = i; table = table_id; file_schema = 0; path = codes "file"; rows = none }

abbrev pub topic_info : TopicInfo externals
topic_info = record {
  columns = [];
  index = [];
  temporary = false;
  shards = shard 10 ∷ shard 11 ∷ [];
  config = none;
}

abbrev pub table_state : TableState externals
table_state = record { id = table_id; info = topic topic_info }

abbrev pub schema_state : SchemaState externals
schema_state = record {
  id = record { catalog = codes "c"; schema = codes "s" };
  path = codes "c/s";
  tables = table_state ∷ [];
}

abbrev pub catalog_state : CatalogState externals
catalog_state = record {
  id = record { id = codes "c" };
  path = codes "c";
  schemas = schema_state ∷ [];
}

abbrev pub config : EllaConfig externals
config = default_config (record { serve_metrics = none; maintenance_interval = 30 })

abbrev pub snapshot : Snapshot externals
snapshot = record {
  uuid = 1;
  last_transaction = some 5;
  catalogs = catalog_state ∷ [];
  config = config;
}

abbrev pub shard_set : ShardSet memory_log
shard_set = record {
  table = table_id;
  path = codes "c/s/t";
  shards = entries topic_info.shards;
  log = [];
}

pub leads : Leads table_id topic_info snapshot.catalogs
unfolding eq_text
leads = record {
  catalog = catalog_state;
  schema = schema_state;
  table = table_state;
  to_catalog = refl;
  to_schema = refl;
  to_table = refl;
  to_topic = refl;
}

pub agrees : Agrees snapshot shard_set
unfolding commit_all
agrees = record {
  snapshot = snapshot;
  replays = refl;
  info = topic_info;
  leads = leads;
  in_order = (refl, (omega arith, tt), (refl, tt, tt));
  same = refl;
}

pub IsFresh-7 : IsFresh snapshot shard_set 7
IsFresh-7 = record { after_base = refl; newest = tt }

pub absent_12 : BTreeMap.get 12 shard_set.shards ≡ none
unfolding BTreeMap.get
absent_12 = refl

pub present_11 : BTreeMap.get 11 shard_set.shards ≢ none
unfolding BTreeMap.get
present_11 h = cc

pub is_tree : IsTree snapshot.catalogs
unfolding schema_id
is_tree = (((refl, ((refl, (refl, (omega arith, tt), (refl, tt, tt))), tt)), tt), tt)

abbrev pub create_12 : CreateShard externals
create_12 = record { uuid = 7; table = table_id; shard = 12; file_schema = 0; path = codes "file" }

pub sort_files-cons :
    {V : Type 0} (k : ℕ) (t : V) (s : List (ℕ × V))
    → sort_files ((k, t) ∷ s) ≡ BTreeMap.insert k t (sort_files s)
unfolding sort_files
sort_files-cons k t s = refl

-- A store in memory, which accepts every file.
abbrev pub memory_store : TransactionStore externals
memory_store = record {
  Store = List (ℕ × Transaction externals);
  put = λ k t s. ((k, t) ∷ s, ok tt);
  files = λ s. s;
  files-put = λ k t s h. sort_files-cons k t s;
  files-put_err = λ k t s e h. absurd (ok-ne-err e h);
}
