-- ===== src/Topic/Buffer/Panics.antt =====
-- The arms of the worker of `RwBuffer` (ella-engine/src/table/topic/rw.rs) and the assertions of its
-- queues.
use ella.Prelude.{
  ℕ, Bool, ◌+◌, ◌==◌, ◌≢◌, none, List, Bool-cases, Option-cases, List-cases, inl, inr, length, leb,
}
use ella.Prelude.Result.{Result}
use ella.Util.WorkQueue.{Sent, enqueue, try_process, complete, ready}
use ella.Util.WorkQueue.Run.{pushed, Run-no_panic}
use ella.Topic.Buffer.{
  Batches, RwBuffer, compact_buffer, receive_batch, compact_rest, take_compacted, write_batch,
  complete_write, take_written, BufferRun,
}
use ella.Topic.Buffer.Rows.{HasRuns, run-HasRuns}

module _ (A : Batches) where
  compact_buffer-ne-none :
      (sent : Sent) (len : ℕ) (s : RwBuffer A)
      → try_process sent s.compacting ≢ none
      → compact_buffer A sent len s ≢ none
  unfolding compact_buffer
  compact_buffer-ne-none sent len s h e = elim (Option-cases (try_process sent s.compacting)) [
    | inl q ↦ h q
    | inr (r, q) ↦ cc (rw (q, compact_buffer) at e)
  ]

  receive_batch-ne-none :
      (R D : List A.Batch) (size : ℕ) (b : A.Batch) (sent : Sent) (s : RwBuffer A)
      → HasRuns A R D s
      → receive_batch A size sent b s ≢ none
  unfolding receive_batch
  receive_batch-ne-none R D size b sent s h e =
      let len = s.len + length (A.rows b) in
      elim (Bool-cases (leb size len)) [
        | inl q ↦
            compact_buffer-ne-none sent 0
              (record s { compacting = enqueue b s.compacting; len = len })
              (Run-no_panic _ _ (enqueue b s.compacting) sent (pushed b h.compacting_run)).0
              (rw (q, receive_batch) at e)
        | inr q ↦ cc (rw (q, receive_batch) at e)
      ]

  compact_rest-ne-none :
      (R D : List A.Batch) (sent : Sent) (s : RwBuffer A)
      → HasRuns A R D s
      → compact_rest A sent s ≢ none
  unfolding compact_rest
  compact_rest-ne-none R D sent s h e = elim (Bool-cases (s.len == 0)) [
    | inl q ↦ cc (rw (q, compact_rest) at e)
    | inr q ↦
        compact_buffer-ne-none sent s.len s (Run-no_panic _ _ s.compacting sent h.compacting_run).0
          (rw (q, compact_rest) at e)
  ]

  take_compacted-ne-none : (s : RwBuffer A) → ready s.compacting ≢ none → take_compacted A s ≢ none
  unfolding take_compacted
  take_compacted-ne-none s h e = elim (List-cases s.compacting.results) [
    | inl z ↦ cc (rw (z, take_compacted) at e)
    | inr (r, rs, z) ↦ elim (Option-cases (ready s.compacting)) [
      | inl q ↦ h q
      | inr (p, q) ↦ cc (rw (z, q, take_compacted) at e)
    ]
  ]

  write_batch-ne-none :
      (R D : List A.Batch) (answer : Result (Unit {0})) (sent : Sent) (s : RwBuffer A)
      → HasRuns A R D s
      → write_batch A answer sent s ≢ none
  unfolding write_batch
  write_batch-ne-none R D answer sent s h e = elim (Option-cases s.in_hand) [
    | inl n ↦ cc (rw (n, write_batch) at e)
    | inr (b, n) ↦ elim (Option-cases (try_process sent (enqueue b s.writing))) [
      | inl q ↦ (Run-no_panic _ _ (enqueue b s.writing) sent (pushed b h.writing_run)).0 q
      | inr (r, q) ↦ cc (rw (n, q, write_batch) at e)
    ]
  ]

  complete_write-ne-none :
      (came : Bool) (sent : Sent) (s : RwBuffer A)
      → complete sent s.writing ≢ none
      → complete_write A came sent s ≢ none
  unfolding complete_write
  complete_write-ne-none came sent s h e = elim (List-cases s.writing.pending) [
    | inl z ↦ cc (rw (z, complete_write) at e)
    | inr (vs, rest, z) ↦ elim (Option-cases (complete sent s.writing)) [
      | inl q ↦ h q
      | inr (r, q) ↦ cc (rw (z, q, complete_write) at e)
    ]
  ]

  take_written-ne-none : (s : RwBuffer A) → ready s.writing ≢ none → take_written A s ≢ none
  unfolding take_written
  take_written-ne-none s h e = elim (Option-cases (ready s.writing)) [
    | inl q ↦ h q
    | inr (r, q) ↦ cc (rw (q, take_written) at e)
  ]

  -- After a run of the buffer in which every `try_send` was accepted, no arm of its worker fails an
  -- assertion of its queues, whether or not the arm's own `try_send` is accepted.
  pub run-no_panic :
      (size : ℕ) (R D : List A.Batch) (s : RwBuffer A) (b : A.Batch) (sent : Sent)
      (answer : Result (Unit {0})) (came : Bool)
      → BufferRun A size R D s
      → (receive_batch A size sent b s ≢ none)
        × (compact_rest A sent s ≢ none)
        × (take_compacted A s ≢ none)
        × (write_batch A answer sent s ≢ none)
        × (complete_write A came sent s ≢ none)
        × (take_written A s ≢ none)
  run-no_panic size R D s b sent answer came r =
      let h = run-HasRuns A size R D s r in
      let c = Run-no_panic _ _ s.compacting sent h.compacting_run in
      let w = Run-no_panic _ _ s.writing sent h.writing_run in
      (
        receive_batch-ne-none R D size b sent s h,
        compact_rest-ne-none R D sent s h,
        take_compacted-ne-none s c.2,
        write_batch-ne-none R D answer sent s h,
        complete_write-ne-none came sent s w.1,
        take_written-ne-none s w.2,
      )
