-- ===== src/Examples/Buffers.antt =====
-- The buffer of a topic at a concrete run.
use ella.Prelude.{
  ℕ, ◌≡◌, refl, ap, true, none, List, [], ◌∷◌, ◌++◌, map, reverse, flatten, inl, inr,
}
use ella.Prelude.Result.{err, table_closed}
use ella.Topic.Buffer.{
  Batches, RwBuffer, WriteCall, refused, new_buffer, receive_batch, compact_buffer, take_compacted,
  compacted, write_batch, job_values, add_call, complete_write, end_first, end_of, take_written,
  scan, BufferRun, started, batch_received, compacting_moved, compacted_taken, batch_written,
  write_received, write_completed, written_taken,
}
use ella.Topic.Buffer.Calls.{called, ended}
use ella.Topic.Buffer.Rows.{rows_of, run-rows}
use ella.Util.WorkQueue.{
  WorkQueue, new, enqueue, push, try_process, new_count, process, receive, complete, ready, finish,
}

flatten-map : (bs : List (List ℕ)) → flatten bs ≡ flatten (map (λ b. b) bs)
flatten-map [] = refl
flatten-map (b ∷ bs) = ap (b ++◌) (flatten-map bs)

abbrev batches : Batches
batches = record {
  Batch = List ℕ;
  Row = ℕ;
  rows = λ b. b;
  concat_batches = flatten;
  concatenates = flatten-map;
}

-- The buffer after a batch of two rows, of the ten that are compacted at once.
abbrev refused_call : WriteCall batches
refused_call = record { values = (1 ∷ 2 ∷ []) ∷ []; answer = err table_closed }

abbrev idle : WorkQueue (List ℕ)
idle = record {
  values = record { items = []; pending = 0 };
  incoming = [];
  pending = [];
  counts = [];
  results = [];
}

-- A batch that was compacted and then refused by the shard manager, and another one not compacted yet.
abbrev buffered : RwBuffer batches
buffered = record {
  compacting = record idle { values = record { items = (3 ∷ []) ∷ []; pending = 0 } };
  writing = idle;
  in_hand = none;
  len = 1;
  writes = record { calls = refused_call ∷ []; running = []; over = (refused_call, refused) ∷ [] };
}

buffering : BufferRun batches 2 ((1 ∷ 2 ∷ []) ∷ (3 ∷ []) ∷ []) ((1 ∷ 2 ∷ []) ∷ []) buffered
unfolding receive_batch compact_buffer new_buffer new enqueue push try_process new_count process
    receive complete ready finish take_compacted compacted write_batch job_values add_call
    complete_write end_first end_of take_written
buffering =
    let first = batch_received (1 ∷ 2 ∷ []) started refl in
    let sent = compacting_moved first (inl refl) in
    let done = compacting_moved sent (inr refl) in
    let taken = compacted_taken done refl refl in
    let written = batch_written (err table_closed) taken refl in
    let over = write_completed true (write_received written) refl in
    batch_received (3 ∷ []) (written_taken over refl) refl

run-rows_example :
    (rows_of batches ((1 ∷ 2 ∷ []) ∷ (3 ∷ []) ∷ [])
      ≡ rows_of batches ((1 ∷ 2 ∷ []) ∷ [])
        ++ (rows_of batches (reverse (scan batches buffered).0)
            ++ ([] ++ rows_of batches (reverse (scan batches buffered).1))))
    × (called batches buffered.writes.calls
        ≡ ((1 ∷ 2 ∷ []) ∷ []) ++ reverse (scan batches buffered).0)
    × (ended batches buffered.writes.over ++ [] ≡ refused_call ∷ [])
    × ((rest : List (List ℕ)) × (called batches (ended batches buffered.writes.over)
          ≡ ((1 ∷ 2 ∷ []) ∷ []) ++ rest))
run-rows_example =
    run-rows batches 2 ((1 ∷ 2 ∷ []) ∷ (3 ∷ []) ∷ []) ((1 ∷ 2 ∷ []) ∷ []) buffered buffering
