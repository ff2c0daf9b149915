-- ===== src/Examples/Sets.antt =====
-- The shards of a topic in memory and in the log, on the small datastore.
use ella.Prelude.{◌++◌, ℕ, ◌+◌, ◌≡◌, refl, none, some, codes, [], ◌∷◌, arith, ◌==◌}
use ella.Prelude.Result.{EngineError, Result, ok, err, shard_not_found}
use ella.Registry.Snapshot.{commit_all}
use ella.Prelude.BTreeMap
use ella.Registry.Info.{ShardInfo, new_shard}
use ella.Registry.Transaction.{compact_shards, create_shard, uuid, close_shard, delete_shard}
use ella.Topic.Worker.{ShardFiles, compact_all}
use ella.Topic.Worker.Agrees.{compact_all-Agrees}
use ella.Topic.ShardSet.Entries.{entries}
use ella.Topic.ShardSet.{new, ShardSet, create, close_one, delete, start_compact, finish_compact}
use ella.Topic.ShardSet.Refinement.{Agrees, create-Agrees, close_one-Agrees, delete-Agrees}
use ella.Registry.TransactionLog.{
  IsNamed, sort_files, put_transaction, load_transactions, put_transaction-replayed,
}
use ella.Registry.LogApi.{IsNewest}
use ella.Topic.ShardSet.Restart.{new-Agrees}
use ella.Topic.ShardSet.Compaction.{start_compact-Agrees, finish_compact-Agrees, close_one_missing}
use ella.Examples.Data.{
  memory_store, create_12, leads, topic_info, externals, memory_log, table_id, shard, snapshot,
  shard_set, agrees, IsFresh-7, absent_12, present_11,
}

create-Agrees_example : Agrees snapshot (create 7 12 (codes "f") 0 shard_set).0
create-Agrees_example =
    create-Agrees snapshot shard_set agrees 7 12 (codes "f") 0 IsFresh-7 absent_12

close_one-Agrees_example : Agrees snapshot (close_one 7 11 100 shard_set).0
close_one-Agrees_example = close_one-Agrees snapshot shard_set agrees 7 11 100 IsFresh-7 present_11

delete-Agrees_example : Agrees snapshot (delete 7 10 shard_set).0
delete-Agrees_example = delete-Agrees snapshot shard_set agrees 7 10 IsFresh-7

replays_nothing : commit_all [] snapshot ≡ (snapshot, ok tt)
unfolding commit_all
replays_nothing = refl

abbrev ids : ℕ → ℕ
ids k = 7 + k

finish_compact-Agrees_example : Agrees snapshot (finish_compact ids (10 ∷ []) 11 100 shard_set).0
finish_compact-Agrees_example =
    finish_compact-Agrees snapshot ids (λ k. omega arith) (10 ∷ []) 11 100 shard_set agrees
      IsFresh-7 present_11

abbrev target : ShardInfo externals
target = record { id = 12; table = table_id; file_schema = 0; path = codes "c/s/t/f"; rows = none }

abbrev started : ShardSet memory_log × Result (ShardInfo externals)
started = (
  record shard_set {
    shards = entries (shard 10 ∷ shard 11 ∷ target ∷ []);
    log =
        compact_shards (record {
          uuid = 7;
          table = table_id;
          src = 10 ∷ [];
          dst = 12;
          file_schema = 0;
          path = codes "c/s/t/f";
        })
        ∷ [];
  },
  ok target,
)

starting : start_compact 7 12 (codes "f") (10 ∷ []) 0 shard_set ≡ some started
unfolding start_compact BTreeMap.insert new_shard
starting = refl

start_compact-Agrees_example : Agrees snapshot started.0
start_compact-Agrees_example =
    start_compact-Agrees snapshot 7 12 (codes "f") (10 ∷ []) 0 shard_set started agrees IsFresh-7
      absent_12 starting

close_one_missing_example :
    ((close_one 7 12 100 shard_set).1 ≡ ok tt)
    × ((commit_all (close_one 7 12 100 shard_set).0.log snapshot).1 ≡ err (shard_not_found 12))
close_one_missing_example =
    close_one_missing snapshot shard_set 7 12 100 agrees IsFresh-7 absent_12 refl

new-Agrees_example :
    Agrees snapshot (new {L = memory_log} table_id (codes "c/s/t") topic_info.shards [])
new-Agrees_example =
    new-Agrees memory_log snapshot snapshot table_id (codes "c/s/t") topic_info [] replays_nothing
      leads (refl, (omega arith, tt), (refl, tt, tt))

no_files : IsNamed memory_store (sort_files (memory_store.files []))
unfolding sort_files
no_files = tt

put_transaction-replayed_example :
    IsNamed memory_store
      (sort_files (memory_store.files (put_transaction memory_store (create_shard create_12) []).0))
    × ((put_transaction memory_store (create_shard create_12) []).1 ≡ ok tt
        → IsNewest (uuid (create_shard create_12)) (load_transactions memory_store [])
        → load_transactions memory_store
            (put_transaction memory_store (create_shard create_12) []).0
          ≡ load_transactions memory_store [] ++ create_shard create_12 ∷ [])
    × ((e : EngineError)
        → (put_transaction memory_store (create_shard create_12) []).1 ≡ err e
        → load_transactions memory_store
            (put_transaction memory_store (create_shard create_12) []).0
          ≡ load_transactions memory_store [])
put_transaction-replayed_example =
    put_transaction-replayed memory_store (create_shard create_12) [] no_files

abbrev shard_files : ShardFiles externals
shard_files = record {
  file_schema = λ x. ok x.file_schema;
  same_schema = λ a b. a == b;
  open_target = λ x. ok tt;
  compact_rows = λ c xs x. ok 50;
  delete_files = λ xs. ok tt;
  abort_target = λ x. ok tt;
}

abbrev compacted : ShardSet memory_log × Result (Unit {0})
compacted = (
  record shard_set {
    shards = entries (shard 11 ∷ record target { rows = some 50 } ∷ []);
    log =
        compact_shards (record {
          uuid = 7;
          table = table_id;
          src = 10 ∷ [];
          dst = 12;
          file_schema = 0;
          path = codes "c/s/t/f";
        })
        ∷ close_shard (record { uuid = 8; table = table_id; shard = 12; rows = 50 })
        ∷ delete_shard (record { uuid = 9; table = table_id; shard = 10 })
        ∷ [];
  },
  ok tt,
)

compacting : compact_all shard_files ids 12 (codes "f") (shard 10 ∷ []) 0 shard_set ≡ some compacted
unfolding compact_all start_compact finish_compact BTreeMap.remove BTreeMap.modify BTreeMap.insert
compacting = refl

compact_all-Agrees_example : Agrees snapshot compacted.0
compact_all-Agrees_example =
    compact_all-Agrees snapshot shard_files ids (λ k. omega arith) 12 (codes "f") (shard 10 ∷ []) 0
      shard_set compacted agrees IsFresh-7 absent_12 compacting
