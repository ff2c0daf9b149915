-- ===== src/Topic/Writer/Handle.antt =====
-- `ShardWriterWorker::handle_write` of ella-engine/src/table/topic/shard/writer.rs: where it panics, and
-- what becomes of the jobs.
use ella.Prelude.{
  ℕ, ◌+◌, ◌≤◌, ◌<◌, ◌≡◌, ◌↔◌, leb→le, refl, sym, ◌∙◌, Bool-cases, inl, inr, Option, none, some,
  List, [], ◌∷◌, ◌++◌, append_assoc, append_nil, leb, arith, ap,
}
use ella.Prelude.Result.{EngineError, Result, ok, err, Result-cases}
use ella.External.{External}
use ella.Topic.Writer.{
  BatchFiles, WriteJob, SingleShardWriter, ShardWriterWorker, count_rows, active_or, rotate,
  handle_write,
}

module _ {X : External} (F : BatchFiles X) where
  waiting : Option (SingleShardWriter F × List (WriteJob F)) → List (WriteJob F)
  waiting none = []
  waiting (some a) = a.1

  finishing : List (SingleShardWriter F × List (WriteJob F)) → List (WriteJob F)
  finishing [] = []
  finishing (a ∷ ws) = a.1 ++ finishing ws

  -- The jobs that the writers have, in the order in which they were sent.
  unfoldable pub unanswered : ShardWriterWorker F → List (WriteJob F)
  unfolding waiting finishing
  unanswered v = finishing v.pending ++ waiting v.active

  finishing-append :
      (ws : List (SingleShardWriter F × List (WriteJob F)))
      (a : SingleShardWriter F × List (WriteJob F))
      → finishing (ws ++ a ∷ []) ≡ finishing ws ++ a.1
  unfolding finishing
  finishing-append [] a = append_nil a.1
  finishing-append (x ∷ ws) a =
      ap (x.1 ++◌) (finishing-append ws a) ∙ sym (append_assoc x.1 (finishing ws) a.1)

  waiting-active_or :
      (created : Result (SingleShardWriter F))
      (o : Option (SingleShardWriter F × List (WriteJob F)))
      (a : SingleShardWriter F × List (WriteJob F))
      → active_or F created o ≡ ok a
      → waiting o ≡ a.1
  unfolding waiting
  waiting-active_or (ok v) none a h = cc
  waiting-active_or (err e) none a h = cc
  waiting-active_or created (some b) a h = cc

module _ {X : External} (F : BatchFiles X) (min_shard_size : ℕ) (job : WriteJob F)
    (created : Result (SingleShardWriter F)) (w : ShardWriterWorker F) where
  -- There is a writer, or one can be created.
  abbrev HasWriter : Type 0
  HasWriter = (a : SingleShardWriter F × List (WriteJob F)) × (active_or F created w.active ≡ ok a)

  -- What panics is a job that could not be sent and whose rows fill the shard: `handle_write` panics
  -- exactly when there is a writer or one could be created, the send to it fails, and the rows
  -- counted so far with those of the job reach the minimal size of a shard.
  pub handle_write-panics :
      (sent : Result (Unit {0}))
      → (handle_write F min_shard_size job created sent w ≡ none) ↔ (
          HasWriter
          × ((e : EngineError) × (sent ≡ err e))
          × (min_shard_size ≤ w.len + count_rows F job.values))
  unfolding handle_write rotate
  handle_write-panics sent =
      let len = w.len + count_rows F job.values in
      elim (Result-cases (active_or F created w.active)) [
        | inr (x, e) ↦ (λ h. cc (rw (e, handle_write) at h), λ (h, _, _). cc (e, h.1))
        | inl (a, e) ↦ elim (Result-cases sent) [
          | inl (_, q) ↦ (
            λ h. elim (Bool-cases (leb min_shard_size len)) [
              | inl r ↦ cc (rw (e, q, handle_write, rotate, r) at h)
              | inr r ↦ cc (rw (e, q, handle_write, rotate, r) at h)
            ],
            λ (_, h, _). cc (q, h.1),
          )
          | inr (x, q) ↦ elim (Bool-cases (leb min_shard_size len)) [
            | inl r ↦ (
              λ _. ((a, e), (x, q), leb→le min_shard_size len r),
              λ _. rw (e, q, handle_write, rotate, r) refl,
            )
            | inr r ↦ (
              λ h. cc (rw (e, q, handle_write, rotate, r) at h),
              λ (_, _, h). ground (arith, h, r),
            )
          ]
        ]
      ]

  -- Where there is a writer or one can be created, and the send succeeds, `handle_write` succeeds; the
  -- job then stands behind all earlier ones with the writers, which lose none, and fewer rows are
  -- counted than the minimal size of a shard, if that is not 0.
  pub handle_write-keeps :
      HasWriter
      → (v : ShardWriterWorker F) × (handle_write F min_shard_size job created (ok tt) w
          ≡ some (v, ok tt))
        × (unanswered F v ≡ unanswered F w ++ job ∷ [])
        × (0 < min_shard_size → v.len < min_shard_size)
  unfolding handle_write rotate unanswered waiting
  handle_write-keeps (a, e) =
      let len = w.len + count_rows F job.values in
      let jobs = a.1 ++ job ∷ [] in
      elim (Bool-cases (leb min_shard_size len)) [
        | inl r ↦ (
          record { active = none; len = 0; pending = w.pending ++ (a.0, jobs) ∷ [] },
          rw (e, handle_write, rotate, r) refl,
          append_nil _
              ∙ finishing-append F w.pending (a.0, jobs)
              ∙ sym (append_assoc (finishing F w.pending) a.1 (job ∷ []))
              ∙ ap (λ js. (finishing F w.pending ++ js) ++ job ∷ [])
                  (sym (waiting-active_or F created w.active a e)),
          λ h. h,
        )
        | inr r ↦ (
          record w { active = some (a.0, jobs); len = len },
          rw (e, handle_write, rotate, r) refl,
          sym (append_assoc (finishing F w.pending) a.1 (job ∷ []))
              ∙ ap (λ js. (finishing F w.pending ++ js) ++ job ∷ [])
                  (sym (waiting-active_or F created w.active a e)),
          λ h. ground (arith, r),
        )
      ]
