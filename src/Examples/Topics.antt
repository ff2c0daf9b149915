-- ===== src/Examples/Topics.antt =====
-- The writers, the channel and the buffer of a topic at concrete inputs.
use ella.Prelude.{
  ℕ, ◌+◌, ◌≤◌, ◌<◌, ◌≡◌, ◌≢◌, ◌↔◌, refl, true, false, none, some, List, [], ◌∷◌, ◌++◌, arith,
  get_elem?,
}
use ella.Prelude.BTreeMap
use ella.Prelude.Result.{EngineError, Result, ok, err, table_queue_full}
use ella.Registry.Info.{close}
use ella.Topic.ShardSet.Refinement.{Agrees}
use ella.Topic.Writer.{
  BatchFiles, WriteJob, SingleShardWriter, ShardWriterWorker, active_or, count_rows, handle_write,
  run_writer,
}
use ella.Topic.Writer.Run.{job_rows, run_writer-Agrees, run_writer-answers}
use ella.Topic.Writer.Handle.{unanswered, handle_write-keeps, handle_write-panics}
use ella.Topic.Channel.{
  Channel, new_channel, clone_inner, deactivate, IsReachable, created, stepped, cloned, collect,
}
use ella.Topic.Channel.Active.{count_active, deactivate-notified}
use ella.Topic.Channel.Limit.{Misses, total_rows, collect-limit}
use ella.Topic.Plan.{TopicStream, drain}
use ella.Topic.Plan.Drain.{drain-items}
use ella.Examples.Data.{externals, shard, snapshot, shard_set, agrees, IsFresh-7, present_11}

abbrev sum : List ℕ → ℕ
sum [] = 0
sum (n ∷ ns) = n + sum ns

-- A batch is the number of its rows.
abbrev batch_files : BatchFiles externals
batch_files = record {
  Batch = ℕ;
  num_rows = λ b. b;
  cast_batch = λ b schema. ok b;
  open_file = λ x. ok tt;
  write_batch = λ bs b. ok tt;
  close_file = λ bs. ok (sum bs);
  failed_assert_eq = λ a b. [];
  abort_file = λ x. ok tt;
}

abbrev writer : SingleShardWriter batch_files
writer = record { shard = shard 11; file_schema = none; written = []; num_rows = 0 }

abbrev job : WriteJob batch_files
job = record { values = 3 ∷ 4 ∷ []; done = 0 }

run_writer-Agrees_example : Agrees snapshot (run_writer batch_files 7 (job ∷ []) writer shard_set).0
run_writer-Agrees_example =
    run_writer-Agrees batch_files snapshot shard_set 7 (job ∷ []) writer agrees IsFresh-7 present_11

seven : 0 + job_rows batch_files (job ∷ []) ≢ 0
unfolding job_rows count_rows
seven e = omega (arith, e)

run_writer-answers_example :
    ((run_writer batch_files 7 (job ∷ []) writer shard_set).1 ≡ ok tt
      → ((run_writer batch_files 7 (job ∷ []) writer shard_set).0.shards
          ≡ BTreeMap.modify 11
              (λ x. close x (0 + job_rows batch_files (job ∷ [])))
              shard_set.shards)
        × ((run_writer batch_files 7 (job ∷ []) writer shard_set).2 ≡ 0 ∷ []))
    × ((e : EngineError)
        → (run_writer batch_files 7 (job ∷ []) writer shard_set).1 ≡ err e
        → (run_writer batch_files 7 (job ∷ []) writer shard_set).2 ≡ [])
run_writer-answers_example = run_writer-answers batch_files 7 (job ∷ []) writer shard_set refl seven

abbrev idle : ShardWriterWorker batch_files
idle = record { active = none; len = 0; pending = [] }

handle_write-keeps_example :
    (v : ShardWriterWorker batch_files) × (handle_write batch_files 5 job (ok writer) (ok tt) idle
      ≡ some (v, ok tt))
    × (unanswered batch_files v ≡ unanswered batch_files idle ++ job ∷ [])
    × (0 < 5 → v.len < 5)
handle_write-keeps_example =
    handle_write-keeps batch_files 5 job (ok writer) idle ((writer, []), refl)

abbrev refused : Result (Unit {0})
refused = err table_queue_full

handle_write-panics_example : (handle_write batch_files 5 job (ok writer) refused idle ≡ none) ↔ (
    ((a : SingleShardWriter batch_files × List (WriteJob batch_files)) × (active_or batch_files
          (ok writer)
          none
        ≡ ok a))
    × ((e : EngineError) × (refused ≡ err e))
    × (5 ≤ 0 + count_rows batch_files (3 ∷ 4 ∷ [])))
handle_write-panics_example = handle_write-panics batch_files 5 job (ok writer) idle refused

-- A channel with one active publisher, the second one.
abbrev publishing : Channel
publishing = record { active = 1; publishers = false ∷ true ∷ []; notified = 0 }

publishing-IsReachable : IsReachable publishing
unfolding clone_inner
publishing-IsReachable = stepped created (cloned new_channel)

deactivate-notified_example :
    ((deactivate 1 publishing).notified ≢ 0
      ↔ ((get_elem? (false ∷ true ∷ []) 1 ≡ some true) × (count_active (false ∷ true ∷ []) ≡ 1)))
    × ((deactivate 1 publishing).notified ≤ 0 + 1)
deactivate-notified_example =
    deactivate-notified 1 publishing publishing-IsReachable (unfold count_active in omega arith)

-- Two batches of three rows pass a limit of four.
misses : Misses (λ n. n) (λ p b. ok b) 4 0 (3 ∷ 3 ∷ [])
unfolding Misses
misses = (λ e. omega (arith, e), (λ e. omega (arith, e), tt))

collect-limit_example :
    (collect
        (λ n. n)
        (λ p b. ok b)
        (record { limit = some 4; rows = 0; projection = none })
        (ok 3 ∷ ok 3 ∷ [])
      ≡ ok 3 ∷ ok 3 ∷ [])
    × (0 + total_rows (λ n. n) (λ p b. ok b) (3 ∷ 3 ∷ []) ≡ 4
        → (rs : List (Result ℕ))
        → collect
            (λ n. n)
            (λ p b. ok b)
            (record { limit = some 4; rows = 0; projection = none })
            (ok 3 ∷ ok 3 ∷ rs)
          ≡ ok 3 ∷ ok 3 ∷ [])
collect-limit_example = collect-limit (λ n. n) (λ p b. ok b) 4 0 none (3 ∷ 3 ∷ []) misses

-- A shard of one batch, an empty buffer, and a channel that waits once.
abbrev stream : TopicStream ℕ
stream = record { shards = some (some 1 ∷ []); rw = some []; channel = some (none ∷ some 2 ∷ []) }

drain-items_example : drain 4 stream ≡ (1 ∷ 2 ∷ [], true)
drain-items_example = drain-items 4 stream (omega arith)
