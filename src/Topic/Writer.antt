-- ===== src/Topic/Writer.antt =====
-- The writing of shards: the worker that hands jobs to the writer of the active shard, and that writer
-- (ella-engine/src/table/topic/shard/writer.rs). A writer has the jobs that its channel delivered
-- until it was closed; the steps on Parquet files are parameters. A panic of the worker is `none`.
pub mod Run
pub mod Handle
use ella.Prelude.{
  ℕ, zero, suc, ◌+◌, ◌==◌, Bool, true, false, Text, codes, Option, none, some, List, [], ◌∷◌, ◌++◌,
  map, leb, if◌then◌else◌,
}
use ella.Prelude.Result.{EngineError, Result, ok, err, worker, ◌>>=◌}
use ella.External.{External}
use ella.Registry.Info.{ShardInfo}
use ella.Registry.LogApi.{LogApi}
use ella.Topic.ShardSet.{ShardSet, create, close_one, delete}

-- What is used of arrow, parquet and the object store: the rows of a batch, its conversion to the
-- schema of the file, the opening of a file, the write of a batch after others, the end of the file,
-- which reports its rows, and the abort of its upload; and the message of a failed `assert_eq!`.
pub record BatchFiles (X : External) : Type 1 where
  pub Batch : Type 0
  pub num_rows : Batch → ℕ
  pub cast_batch : Batch → X.Schema → Result Batch
  pub open_file : ShardInfo X → Result (Unit {0})
  pub write_batch : List Batch → Batch → Result (Unit {0})
  pub close_file : List Batch → Result ℕ
  pub failed_assert_eq : ℕ → ℕ → Text
  pub abort_file : ShardInfo X → Result (Unit {0})

module _ {X : External} (F : BatchFiles X) where
  -- `done` is the channel on which the job is answered.
  pub record WriteJob : Type 0 where
    pub values : List F.Batch
    pub done : ℕ

  -- `written` has the batches in the file.
  pub record SingleShardWriter : Type 0 where
    pub shard : ShardInfo X
    pub file_schema : Option X.Schema
    pub written : List F.Batch
    pub num_rows : ℕ

  -- The rows of a job, as `handle_write` counts them.
  unfoldable pub count_rows : List F.Batch → ℕ
  count_rows [] = 0
  count_rows (b ∷ bs) = F.num_rows b + count_rows bs

  -- What is written counts, also where the write then fails.
  abbrev pub written_to : SingleShardWriter → F.Batch → SingleShardWriter × Result (Unit {0})
  written_to w b =
      let r = F.write_batch w.written b in
      (
        record w {
          written = elim r [ ok _ ↦ w.written ++ b ∷ [] | err _ ↦ w.written ];
          num_rows = w.num_rows + F.num_rows b;
        },
        r,
      )

  -- `SingleShardWriter::write`
  unfoldable pub write_one : F.Batch → SingleShardWriter → SingleShardWriter × Result (Unit {0})
  write_one b w = elim w.file_schema [
    | none ↦ written_to w b
    | some schema ↦ elim (F.cast_batch b schema) [ ok c ↦ written_to w c | err e ↦ (w, err e) ]
  ]

  -- The loop over the batches of a job.
  unfoldable pub write_batches :
      List F.Batch → SingleShardWriter → SingleShardWriter × Result (Unit {0})
  unfolding write_one
  write_batches [] w = (w, ok tt)
  write_batches (b ∷ bs) w = elim (write_one b w).1 [
    | ok _ ↦ write_batches bs (write_one b w).0
    | err e ↦ ((write_one b w).0, err e)
  ]

  -- The loop over the jobs.
  unfoldable pub write_jobs :
      List WriteJob → SingleShardWriter → SingleShardWriter × Result (Unit {0})
  unfolding write_batches
  write_jobs [] w = (w, ok tt)
  write_jobs (j ∷ js) w = elim (write_batches j.values w).1 [
    | ok _ ↦ write_jobs js (write_batches j.values w).0
    | err e ↦ ((write_batches j.values w).0, err e)
  ]

  module _ {L : LogApi X} where
    -- `SingleShardWriter::create`, with the fresh ids and file name of `create_shard`
    unfoldable pub create_writer :
        ℕ
        → ℕ
        → Text
        → X.Schema
        → Option X.Schema
        → ShardSet L
        → ShardSet L × Result SingleShardWriter
    create_writer u i file table_schema file_schema s =
        let r = create u i file (elim file_schema [ none ↦ table_schema | some f ↦ f ]) s in
        (
          r.0,
          r.1 >>= λ shard. F.open_file shard >>= λ _.
              ok (record { shard = shard; file_schema = file_schema; written = []; num_rows = 0 }),
        )

    -- `SingleShardWriter::abort`
    unfoldable pub abort_writer :
        ℕ → SingleShardWriter → ShardSet L → ShardSet L × Result (Unit {0})
    abort_writer u w s = let r = delete u w.shard.id s in (r.0, r.1 >>= λ _. F.abort_file w.shard)

    -- `SingleShardWriter::close`; where its `debug_assert_eq!` on the rows that the closed file reports
    -- fails, the task of the writer panics, and the result is what `JobHandle::finish` makes of that.
    unfoldable pub close_writer :
        ℕ → SingleShardWriter → ShardSet L → ShardSet L × Result (Unit {0})
    unfolding abort_writer
    close_writer u w s =
        if w.num_rows == 0 then abort_writer u w s else elim (F.close_file w.written) [
          | err e ↦ (s, err e)
          | ok rows ↦ if w.num_rows == rows then close_one u w.shard.id w.num_rows s else (
            s,
            err (worker (codes "single_shard_worker") (F.failed_assert_eq w.num_rows rows)),
          )
        ]

    -- `JobHandle::run`: the set, the result, and the jobs that are answered. The id is that of the one
    -- transaction that the run commits.
    unfoldable pub run_writer :
        ℕ → List WriteJob → SingleShardWriter → ShardSet L → ShardSet L × Result (Unit {0}) × List ℕ
    unfolding write_jobs abort_writer close_writer
    run_writer u jobs w s = elim (write_jobs jobs w).1 [
      | err e ↦ let r = abort_writer u (write_jobs jobs w).0 s in (r.0, (r.1 >>= λ _. err e), [])
      | ok _ ↦
          let r = close_writer u (write_jobs jobs w).0 s in
          (r.0, r.1, elim r.1 [ ok _ ↦ map (λ j. j.done) jobs | err _ ↦ [] ])
    ]

  -- The active writer with the jobs that it was sent, the rows counted since the last one was
  -- finished, and the writers that finish.
  pub record ShardWriterWorker : Type 0 where
    pub active : Option (SingleShardWriter × List WriteJob)
    pub len : ℕ
    pub pending : List (SingleShardWriter × List WriteJob)

  -- `handle.send(job)` on the active writer; a writer that a send failed on is given up, which closes
  -- its channel.
  abbrev pub send_job :
      WriteJob
      → Result (Unit {0})
      → SingleShardWriter × List WriteJob
      → Option (SingleShardWriter × List WriteJob)
  send_job job (ok _) a = some (a.0, a.1 ++ job ∷ [])
  send_job job (err e) a = none

  -- The end of `handle_write`: `take(&mut self.active).unwrap()` panics where there is no writer.
  unfoldable pub rotate : ℕ → ShardWriterWorker → Option ShardWriterWorker
  rotate min_shard_size w =
      if leb min_shard_size w.len
      then elim w.active [
        | none ↦ none
        | some a ↦ some (record { active = none; len = 0; pending = w.pending ++ a ∷ [] })
      ]
      else some w

  -- The writer that `handle_write` sends to, with what the creation of one gives.
  abbrev pub active_or :
      Result SingleShardWriter
      → Option (SingleShardWriter × List WriteJob)
      → Result (SingleShardWriter × List WriteJob)
  active_or created (some a) = ok a
  active_or created none = created >>= λ v. ok (v, [])

  -- `handle_write`, with what the creation of a writer gives where there is none, and what the send
  -- answers.
  unfoldable pub handle_write :
      ℕ
      → WriteJob
      → Result SingleShardWriter
      → Result (Unit {0})
      → ShardWriterWorker
      → Option (ShardWriterWorker × Result (Unit {0}))
  unfolding count_rows rotate
  handle_write min_shard_size job created sent w =
      let len = w.len + count_rows job.values in
      elim (active_or created w.active) [
        | err e ↦ some (record w { len = len }, err e)
        | ok a ↦
            elim (rotate min_shard_size (record w { active = send_job job sent a; len = len })) [
              | none ↦ none
              | some v ↦ some (v, ok tt)
            ]
      ]
