-- ===== src/Topic/Writer/Run.antt =====
-- How `JobHandle::run` of ella-engine/src/table/topic/shard/writer.rs ends.
use ella.Prelude.{
  ℕ, ◌+◌, ◌==◌, ◌≡◌, ◌≢◌, refl, sym, ap, Bool-cases, inl, inr, false, none, List, [], ◌∷◌,
  Option-cases, map, arith,
}
use ella.Prelude.BTreeMap
use ella.Prelude.Result.{EngineError, Result, ok, err, ◌>>=◌, Result-cases}
use ella.External.{External}
use ella.Registry.Info.{close}
use ella.Registry.LogApi.{LogApi}
use ella.Registry.Transaction.{Transaction, close_shard}
use ella.Registry.Snapshot.{Snapshot}
use ella.Topic.ShardSet.{ShardSet, close_one, committing}
use ella.Topic.ShardSet.Refinement.{Agrees, IsFresh, close_one-Agrees, delete-Agrees}
use ella.Topic.Writer.{
  BatchFiles, WriteJob, SingleShardWriter, count_rows, write_one, write_batches, write_jobs,
  abort_writer, close_writer, run_writer,
}

module _ {X : External} (F : BatchFiles X) where
  write_one-shard : (b : F.Batch) (w : SingleShardWriter F) → (write_one F b w).0.shard ≡ w.shard
  unfolding write_one
  write_one-shard b w = elim (Option-cases w.file_schema) [
    | inl e ↦ rw e refl
    | inr (schema, e) ↦ elim (Result-cases (F.cast_batch b schema)) [
      | inl (c, q) ↦ rw (e, write_one, q) refl
      | inr (x, q) ↦ rw (e, write_one, q) refl
    ]
  ]

  write_batches-shard :
      (bs : List F.Batch) (w : SingleShardWriter F) → (write_batches F bs w).0.shard ≡ w.shard
  unfolding write_batches
  write_batches-shard [] w = refl
  write_batches-shard (b ∷ bs) w = elim (Result-cases (write_one F b w).1) [
    | inl (_, e) ↦
        rw (e, write_batches, write_batches-shard bs (write_one F b w).0) (write_one-shard b w)
    | inr (x, e) ↦ rw (e, write_batches) (write_one-shard b w)
  ]

  write_jobs-shard :
      (js : List (WriteJob F)) (w : SingleShardWriter F) → (write_jobs F js w).0.shard ≡ w.shard
  unfolding write_jobs
  write_jobs-shard [] w = refl
  write_jobs-shard (j ∷ js) w = elim (Result-cases (write_batches F j.values w).1) [
    | inl (_, e) ↦
        rw (e, write_jobs, write_jobs-shard js (write_batches F j.values w).0)
          (write_batches-shard j.values w)
    | inr (x, e) ↦ rw (e, write_jobs) (write_batches-shard j.values w)
  ]

  -- Rows written where there is no conversion.
  abbrev HasWritten : ℕ → SingleShardWriter F → SingleShardWriter F → Type 0
  HasWritten n w v = (v.file_schema ≡ none) × (v.num_rows ≡ w.num_rows + n)

  write_one-rows :
      (b : F.Batch) (w : SingleShardWriter F)
      → w.file_schema ≡ none
      → HasWritten (F.num_rows b) w (write_one F b w).0
  unfolding write_one
  write_one-rows b w e = rw e (refl, refl)

  write_batches-rows :
      (bs : List F.Batch) (w : SingleShardWriter F)
      → w.file_schema ≡ none
      → (write_batches F bs w).1 ≡ ok tt
      → HasWritten (count_rows F bs) w (write_batches F bs w).0
  unfolding write_batches count_rows
  write_batches-rows [] w h k = (h, omega arith)
  write_batches-rows (b ∷ bs) w h k = elim (Result-cases (write_one F b w).1) [
    | inl (_, e) ↦
        let v = (write_one F b w).0 in
        let one = write_one-rows b w h in
        let rest = write_batches-rows bs v one.0 (rw (e, write_batches) at k) in
        rw (e, write_batches) (rest.0, omega (arith, rest.1, one.1))
    | inr (x, e) ↦ cc (rw (e, write_batches) at k)
  ]

  -- The rows of jobs.
  unfoldable pub job_rows : List (WriteJob F) → ℕ
  unfolding count_rows
  job_rows [] = 0
  job_rows (j ∷ js) = count_rows F j.values + job_rows js

  write_jobs-rows :
      (js : List (WriteJob F)) (w : SingleShardWriter F)
      → w.file_schema ≡ none
      → (write_jobs F js w).1 ≡ ok tt
      → HasWritten (job_rows js) w (write_jobs F js w).0
  unfolding write_jobs job_rows
  write_jobs-rows [] w h k = (h, omega arith)
  write_jobs-rows (j ∷ js) w h k = elim (Result-cases (write_batches F j.values w).1) [
    | inl (_, e) ↦
        let v = (write_batches F j.values w).0 in
        let one = write_batches-rows j.values w h e in
        let rest = write_jobs-rows js v one.0 (rw (e, write_jobs) at k) in
        rw (e, write_jobs) (rest.0, omega (arith, rest.1, one.1))
    | inr (x, e) ↦ cc (rw (e, write_jobs) at k)
  ]

  aborted :
      (e : EngineError) (r ended : Result (Unit {0})) → ended ≡ (r >>= λ _. err e) → ended ≢ ok tt
  aborted e (ok _) ended h k = cc
  aborted e (err x) ended h k = cc

  module _ {L : LogApi X} where
    close_writer-Agrees :
        (base : Snapshot X) (s : ShardSet L) (u : ℕ) (w : SingleShardWriter F)
        → Agrees base s
        → IsFresh base s u
        → BTreeMap.get w.shard.id s.shards ≢ none
        → Agrees base (close_writer F u w s).0
    unfolding close_writer abort_writer
    close_writer-Agrees base s u w a f there = elim (Bool-cases (w.num_rows == 0)) [
      | inl e ↦ rw (e, close_writer) (delete-Agrees base s a u w.shard.id f)
      | inr e ↦ elim (Result-cases (F.close_file w.written)) [
        | inl (rows, q) ↦ elim (Bool-cases (w.num_rows == rows)) [
          | inl m ↦
              rw (e, q, m, close_writer) (close_one-Agrees base s a u w.shard.id w.num_rows f there)
          | inr m ↦ rw (e, q, m, close_writer) a
        ]
        | inr (x, q) ↦ rw (e, q, close_writer) a
      ]
    ]

    -- Where memory and log agree and memory has the shard of a writer, a run of the writer under a
    -- transaction id newer than the log keeps memory and log in agreement, whichever of the writes
    -- of batches, the end of the file, the assertion on its rows, the abort of the upload and the commit fails.
    pub run_writer-Agrees :
        (base : Snapshot X) (s : ShardSet L) (u : ℕ) (jobs : List (WriteJob F))
        (w : SingleShardWriter F)
        → Agrees base s
        → IsFresh base s u
        → BTreeMap.get w.shard.id s.shards ≢ none
        → Agrees base (run_writer F u jobs w s).0
    unfolding run_writer abort_writer
    run_writer-Agrees base s u jobs w a f there =
        let v = (write_jobs F jobs w).0 in
        elim (Result-cases (write_jobs F jobs w).1) [
          | inl (_, e) ↦
              rw (e, run_writer)
                (close_writer-Agrees base s u v a f (rw (write_jobs-shard jobs w) there))
          | inr (x, e) ↦ rw (e, run_writer) (delete-Agrees base s a u v.shard.id f)
        ]

    close_one-ok :
        (u i rows : ℕ) (s : ShardSet L)
        → (close_one u i rows s).1 ≡ ok tt
        → (close_one u i rows s).0.shards ≡ BTreeMap.modify i (λ x. close x rows) s.shards
    unfolding close_one committing
    close_one-ok u i rows s h =
        let t : Transaction X =
          close_shard (record { uuid = u; table = s.table; shard = i; rows = rows }) in
        elim (Result-cases (L.commit t s.log).1) [
          | inl (_, e) ↦ rw (e, close_one, committing) refl
          | inr (x, e) ↦ cc (rw (e, close_one, committing) at h)
        ]

    close_writer-ok :
        (u : ℕ) (w : SingleShardWriter F) (s : ShardSet L)
        → w.num_rows ≢ 0
        → (close_writer F u w s).1 ≡ ok tt
        → (close_writer F u w s).0.shards
          ≡ BTreeMap.modify w.shard.id (λ x. close x w.num_rows) s.shards
    unfolding close_writer
    close_writer-ok u w s n h =
        let e : (w.num_rows == 0) ≡ false = ground (arith, n) in
        elim (Result-cases (F.close_file w.written)) [
          | inl (rows, q) ↦ elim (Bool-cases (w.num_rows == rows)) [
            | inl m ↦
                rw (e, q, m, close_writer)
                  (close_one-ok u w.shard.id w.num_rows s (rw (e, q, m, close_writer) at h))
            | inr m ↦ cc (rw (e, q, m, close_writer) at h)
          ]
          | inr (x, q) ↦ cc (rw (e, q, close_writer) at h)
        ]

    close_writer-closes :
        (u i n : ℕ) (w : SingleShardWriter F) (s : ShardSet L)
        → w.shard.id ≡ i
        → w.num_rows ≡ n
        → n ≢ 0
        → (close_writer F u w s).1 ≡ ok tt
        → (close_writer F u w s).0.shards ≡ BTreeMap.modify i (λ x. close x n) s.shards
    close_writer-closes u i n w s p q h k = rw (sym p, sym q) (close_writer-ok u w s (rw q h) k)

    -- Without a conversion of batches and with rows to write, a run that succeeds closes the shard
    -- of the writer with exactly the rows of all batches of all jobs, changes no other shard, and
    -- then answers every job; a run that fails answers none.
    pub run_writer-answers :
        (u : ℕ) (jobs : List (WriteJob F)) (w : SingleShardWriter F) (s : ShardSet L)
        → w.file_schema ≡ none
        → w.num_rows + job_rows jobs ≢ 0
        → ((run_writer F u jobs w s).1 ≡ ok tt
            → ((run_writer F u jobs w s).0.shards
                ≡ BTreeMap.modify w.shard.id (λ x. close x (w.num_rows + job_rows jobs)) s.shards)
              × ((run_writer F u jobs w s).2 ≡ map (λ j. j.done) jobs))
          × ((e : EngineError)
              → (run_writer F u jobs w s).1 ≡ err e
              → (run_writer F u jobs w s).2 ≡ [])
    unfolding run_writer
    run_writer-answers u jobs w s none_given n = elim (Result-cases (write_jobs F jobs w).1) [
      | inl (_, e) ↦
          let v = (write_jobs F jobs w).0 in
          let n' = (write_jobs-rows jobs w none_given e).1 in
          elim (Result-cases (close_writer F u v s).1) [
            | inl (_, q) ↦ (
              λ h.
                  rw (e, q, run_writer)
                    (
                      close_writer-closes u w.shard.id (w.num_rows + job_rows jobs) v s
                          (ap (λ x. x.id) (write_jobs-shard jobs w)) n' n q,
                      refl,
                    ),
              λ y h. cc (rw (e, q, run_writer) at h),
            )
            | inr (x, q) ↦ (λ h. cc (rw (e, q, run_writer) at h), λ y h. rw (e, q, run_writer) refl)
          ]
      | inr (x, e) ↦ (
        λ h. absurd (aborted x _ _ refl (rw (e, run_writer) at h)),
        λ y h. rw (e, run_writer) refl,
      )
    ]
