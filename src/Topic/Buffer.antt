-- ===== src/Topic/Buffer.antt =====
-- The buffer between the publishers of a topic and its shards (`RwBuffer` and `RwBufferWorker` of
-- ella-engine/src/table/topic/rw.rs): a work queue of received batches that are compacted, and one of
-- compacted batches that are written. Each arm of the worker is a step; between taking a compacted
-- batch from the first queue and pushing it to the second, other threads can read both. A job of the
-- second queue is a call of `ShardManager::write`: if the shard manager refuses it, the rows are
-- dropped with a log and the job is over at once; otherwise it waits for the shard's answer, and is
-- over as well when the answer's sender is dropped.
pub mod Rows
pub mod Calls
pub mod Panics
use ella.Prelude.{
  ℕ, Bool, true, false, ◌+◌, ◌==◌, ◌≡◌, ◌⊎◌, Option, none, some, List, [], ◌∷◌, ◌++◌, length,
  flatten, map, leb, if◌then◌else◌,
}
use ella.Prelude.Result.{Result, ok, err}
use ella.Util.WorkQueue.{
  WorkQueue, Sent, accepted, new, new_count, process, enqueue, try_process, receive, complete,
  ready,
}

-- Arrow's record batches: their rows, and `concat_batches`, which keeps all rows in order.
pub record Batches : Type 1 where
  pub Batch : Type 0
  pub Row : Type 0
  pub rows : Batch → List Row
  pub concat_batches : List Batch → Batch
  pub concatenates : (bs : List Batch) → rows (concat_batches bs) ≡ flatten (map rows bs)

-- How the job of a call ended: the shard manager refused the batches, the shard answered that they are
-- written, or it dropped the sender of the answer. The worker treats the three alike.
pub data WriteEnd : Type 0 where
  refused answered dropped : WriteEnd

-- What the future of a job waits for: nothing after a refused call, and otherwise the answer of the
-- shard, of which `let _` ignores whether it came.
unfoldable pub end_of : Result (Unit {0}) → Bool → WriteEnd
end_of (err e) came = refused
end_of (ok u) true = answered
end_of (ok u) false = dropped

module _ (A : Batches) where
  -- A call of `ShardManager::write`: the batches of a job, and what it answered.
  pub record WriteCall : Type 0 where
    pub values : List A.Batch
    pub answer : Result (Unit {0})

  -- All calls, those whose job is not over, and those whose job is over, each the oldest first.
  pub record Writes : Type 0 where
    pub calls : List WriteCall
    pub running : List WriteCall
    pub over : List (WriteCall × WriteEnd)

  -- `in_hand` is the batch that the worker has taken from the first queue and not yet pushed to the
  -- second.
  pub record RwBuffer : Type 0 where
    pub compacting : WorkQueue A.Batch
    pub writing : WorkQueue A.Batch
    pub in_hand : Option A.Batch
    pub len : ℕ
    pub writes : Writes

  unfoldable pub new_buffer : RwBuffer
  unfolding new
  new_buffer = record {
    compacting = new;
    writing = new;
    in_hand = none;
    len = 0;
    writes = record { calls = []; running = []; over = [] };
  }

  -- The future that `compact_buffer` gives to the queue.
  unfoldable pub compacted : List A.Batch → A.Batch
  compacted [] = A.concat_batches []
  compacted (b ∷ []) = b
  compacted (b ∷ c ∷ bs) = A.concat_batches (b ∷ c ∷ bs)

  -- `compact_buffer`, which only logs that the queue refuses the job
  unfoldable pub compact_buffer : Sent → ℕ → RwBuffer → Option RwBuffer
  unfolding try_process
  compact_buffer sent len s = elim (try_process sent s.compacting) [
    | none ↦ none
    | some r ↦ some (record s { compacting = r.0; len = len })
  ]

  -- A batch that is received, while the worker runs and while it shuts down.
  unfoldable pub receive_batch : ℕ → Sent → A.Batch → RwBuffer → Option RwBuffer
  unfolding enqueue compact_buffer
  receive_batch write_batch_size sent b s =
      let len = s.len + length (A.rows b) in
      let v = record s { compacting = enqueue b s.compacting; len = len } in
      if leb write_batch_size len then compact_buffer sent 0 v else some v

  -- What the shut-down compacts last.
  unfoldable pub compact_rest : Sent → RwBuffer → Option RwBuffer
  unfolding compact_buffer
  compact_rest sent s = if s.len == 0 then some s else compact_buffer sent s.len s

  -- `self.compacting_out.ready()`, when there is a result
  unfoldable pub take_compacted : RwBuffer → Option RwBuffer
  unfolding ready compacted
  take_compacted s = elim s.compacting.results [
    | [] ↦ some s
    | r ∷ rs ↦ elim (ready s.compacting) [
      | none ↦ none
      | some (q, bs) ↦ some (record s { compacting = q; in_hand = some (compacted bs) })
    ]
  ]

  -- The values that `process` hands to the closure of a job.
  unfoldable pub job_values : WorkQueue A.Batch → List A.Batch
  unfolding new_count process
  job_values q = elim (process (new_count q.values) q.values) [ none ↦ [] | some r ↦ r.1 ]

  -- The call is made when the job is; the job is lost if the channel of the queue does not take it.
  unfoldable pub add_call : WriteCall → Result (Unit {0}) → Writes → Writes
  add_call c (ok u) w = record w { calls = w.calls ++ c ∷ []; running = w.running ++ c ∷ [] }
  add_call c (err e) w = record w { calls = w.calls ++ c ∷ [] }

  -- `write_batch`, on the batch in hand: `answer` is that of `shards.write`.
  unfoldable pub write_batch : Result (Unit {0}) → Sent → RwBuffer → Option RwBuffer
  unfolding enqueue try_process job_values add_call
  write_batch answer sent s = elim s.in_hand [
    | none ↦ some s
    | some b ↦
        let q = enqueue b s.writing in
        elim (try_process sent q) [
          | none ↦ none
          | some r ↦ some (record s {
            writing = r.0;
            in_hand = none;
            writes = add_call (record { values = job_values q; answer = answer }) r.1 s.writes;
          })
        ]
  ]

  unfoldable pub end_first : Bool → Writes → Writes
  unfolding end_of
  end_first came w = elim w.running [
    | [] ↦ w
    | c ∷ rest ↦ record w { running = rest; over = w.over ++ (c, end_of c.answer came) ∷ [] }
  ]

  -- The oldest job of the second queue ends, if there is one.
  unfoldable pub complete_write : Bool → Sent → RwBuffer → Option RwBuffer
  unfolding complete end_first
  complete_write came sent s = elim s.writing.pending [
    | [] ↦ some s
    | vs ∷ rest ↦ elim (complete sent s.writing) [
      | none ↦ none
      | some q ↦ some (record s { writing = q; writes = end_first came s.writes })
    ]
  ]

  -- `self.writing_out.ready()`, with the batches of the job that is over
  unfoldable pub take_written : RwBuffer → Option (RwBuffer × List A.Batch)
  unfolding ready
  take_written s = elim (ready s.writing) [
    | none ↦ none
    | some (q, bs) ↦ some (record s { writing = q }, bs)
  ]

  -- `RwBuffer::scan`: the two partitions, if no step comes between the reads of the two queues.
  unfoldable pub scan : RwBuffer → List A.Batch × List A.Batch
  scan s = (s.writing.values.items, s.compacting.values.items)

  -- A run in which every `try_send` was accepted: the batches received, those of the jobs of the second
  -- queue whose end the worker has seen, however they ended, each the oldest first, and the buffer it
  -- leads to. The arms of `process_queue` of both queues come
  -- in between.
  pub data BufferRun (write_batch_size : ℕ) : List A.Batch → List A.Batch → RwBuffer → Type 0 where
    started : BufferRun write_batch_size [] [] new_buffer
    batch_received :
        {R D : List A.Batch} {s s' : RwBuffer} (b : A.Batch)
        → BufferRun write_batch_size R D s
        → receive_batch write_batch_size accepted b s ≡ some s'
        → BufferRun write_batch_size (R ++ b ∷ []) D s'
    rest_compacted :
        {R D : List A.Batch} {s s' : RwBuffer}
        → BufferRun write_batch_size R D s
        → compact_rest accepted s ≡ some s'
        → BufferRun write_batch_size R D s'
    compacted_taken :
        {R D : List A.Batch} {s s' : RwBuffer}
        → BufferRun write_batch_size R D s
        → s.in_hand ≡ none
        → take_compacted s ≡ some s'
        → BufferRun write_batch_size R D s'
    batch_written :
        {R D : List A.Batch} {s s' : RwBuffer} (answer : Result (Unit {0}))
        → BufferRun write_batch_size R D s
        → write_batch answer accepted s ≡ some s'
        → BufferRun write_batch_size R D s'
    written_taken :
        {R D bs : List A.Batch} {s s' : RwBuffer}
        → BufferRun write_batch_size R D s
        → take_written s ≡ some (s', bs)
        → BufferRun write_batch_size R (D ++ bs) s'
    compacting_moved :
        {R D : List A.Batch} {s : RwBuffer} {q : WorkQueue A.Batch}
        → BufferRun write_batch_size R D s
        → (q ≡ receive s.compacting) ⊎ (complete accepted s.compacting ≡ some q)
        → BufferRun write_batch_size R D (record s { compacting = q })
    write_received :
        {R D : List A.Batch} {s : RwBuffer}
        → BufferRun write_batch_size R D s
        → BufferRun write_batch_size R D (record s { writing = receive s.writing })
    write_completed :
        {R D : List A.Batch} {s s' : RwBuffer} (came : Bool)
        → BufferRun write_batch_size R D s
        → complete_write came accepted s ≡ some s'
        → BufferRun write_batch_size R D s'
