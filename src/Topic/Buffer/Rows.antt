-- ===== src/Topic/Buffer/Rows.antt =====
-- The rows in the buffer of a topic (ella-engine/src/table/topic/rw.rs).
use mathlib.Core.Path.{subst}
use mathlib.Core.Option.{some-injective}
use ella.Prelude.{
  ℕ, Bool, ◌+◌, ◌==◌, ◌≡◌, ◌⊎◌, refl, sym, ap, ◌∙◌, Option, none, some, List, [], ◌∷◌, ◌++◌, length,
  flatten, map, leb, append_nil, append_assoc, List-cases, reverse, reverse-reverse, Bool-cases,
  Option-cases, inl, inr,
}
use ella.Util.WorkQueue.{WorkQueue, accepted, enqueue, try_process, receive, complete, ready}
use ella.Util.WorkQueue.Run.{Run, start, pushed, processed, received, completed, readied, Run-items}
use ella.Topic.Buffer.{
  Batches, RwBuffer, new_buffer, compacted, compact_buffer, receive_batch, compact_rest,
  take_compacted, write_batch, take_written, scan, BufferRun, started, batch_received,
  rest_compacted, compacted_taken, batch_written, written_taken, compacting_moved, write_received,
  write_completed, complete_write,
}
use ella.Topic.Buffer.Calls.{
  HasCalls, called, ended, new-HasCalls, call-HasCalls, received-HasCalls, completed-HasCalls,
  readied-HasCalls, called-items,
}
use ella.Prelude.Result.{Result}

module _ (A : Batches) where
  -- The rows of batches, in order.
  unfoldable pub rows_of : List A.Batch → List A.Row
  rows_of [] = []
  rows_of (b ∷ bs) = A.rows b ++ rows_of bs

  abbrev pub held_rows : Option A.Batch → List A.Row
  held_rows none = []
  held_rows (some b) = A.rows b

  rows_of-append : (bs cs : List A.Batch) → rows_of (bs ++ cs) ≡ rows_of bs ++ rows_of cs
  unfolding rows_of
  rows_of-append [] cs = refl
  rows_of-append (b ∷ bs) cs =
      ap (A.rows b ++◌) (rows_of-append bs cs) ∙ sym (append_assoc (A.rows b) _ _)

  rows_of-flatten : (bs : List A.Batch) → flatten (map A.rows bs) ≡ rows_of bs
  unfolding rows_of
  rows_of-flatten [] = refl
  rows_of-flatten (b ∷ bs) = ap (A.rows b ++◌) (rows_of-flatten bs)

  rows-compacted : (bs : List A.Batch) → A.rows (compacted A bs) ≡ rows_of bs
  unfolding compacted rows_of
  rows-compacted [] = A.concatenates [] ∙ rows_of-flatten []
  rows-compacted (b ∷ []) = sym (append_nil (A.rows b))
  rows-compacted (b ∷ c ∷ bs) = A.concatenates (b ∷ c ∷ bs) ∙ rows_of-flatten (b ∷ c ∷ bs)

  -- Both queues are in runs, what the first has finished is what was pushed to the second with what is
  -- in hand, and the calls of the shard manager follow the second.
  pub record HasRuns (R D : List A.Batch) (s : RwBuffer A) : Type 0 where
    pub handed : List A.Batch
    pub finished : List A.Batch
    pub compacting_run : Run R finished s.compacting
    pub writing_run : Run handed D s.writing
    pub kept : rows_of finished ≡ rows_of handed ++ held_rows s.in_hand
    pub calls : HasCalls A D s.writing s.writes

  compact_buffer-HasRuns :
      (R D : List A.Batch) (len : ℕ) (s s' : RwBuffer A)
      → HasRuns R D s
      → compact_buffer A accepted len s ≡ some s'
      → HasRuns R D s'
  unfolding compact_buffer
  compact_buffer-HasRuns R D len s s' h e =
      elim (Option-cases (try_process accepted s.compacting)) [
        | inl q ↦ cc (rw (q, compact_buffer) at e)
        | inr (r, q) ↦
            subst (HasRuns R D) (some-injective _ _ (rw (q, compact_buffer) at e)) (record {
              handed = h.handed;
              finished = h.finished;
              compacting_run = processed h.compacting_run q;
              writing_run = h.writing_run;
              kept = h.kept;
              calls = h.calls;
            })
      ]

  receive_batch-HasRuns :
      (R D : List A.Batch) (size : ℕ) (b : A.Batch) (s s' : RwBuffer A)
      → HasRuns R D s
      → receive_batch A size accepted b s ≡ some s'
      → HasRuns (R ++ b ∷ []) D s'
  unfolding receive_batch
  receive_batch-HasRuns R D size b s s' h e =
      let len = s.len + length (A.rows b) in
      let v : RwBuffer A = record s { compacting = enqueue b s.compacting; len = len } in
      let k : HasRuns (R ++ b ∷ []) D v = record {
        handed = h.handed;
        finished = h.finished;
        compacting_run = pushed b h.compacting_run;
        writing_run = h.writing_run;
        kept = h.kept;
        calls = h.calls;
      } in
      elim (Bool-cases (leb size len)) [
        | inl q ↦ compact_buffer-HasRuns (R ++ b ∷ []) D 0 v s' k (rw (q, receive_batch) at e)
        | inr q ↦
            subst (HasRuns (R ++ b ∷ []) D) (some-injective _ _ (rw (q, receive_batch) at e)) k
      ]

  compact_rest-HasRuns :
      (R D : List A.Batch) (s s' : RwBuffer A)
      → HasRuns R D s
      → compact_rest A accepted s ≡ some s'
      → HasRuns R D s'
  unfolding compact_rest
  compact_rest-HasRuns R D s s' h e = elim (Bool-cases (s.len == 0)) [
    | inl q ↦ subst (HasRuns R D) (some-injective _ _ (rw (q, compact_rest) at e)) h
    | inr q ↦ compact_buffer-HasRuns R D s.len s s' h (rw (q, compact_rest) at e)
  ]

  take_compacted-HasRuns :
      (R D : List A.Batch) (s s' : RwBuffer A)
      → HasRuns R D s
      → s.in_hand ≡ none
      → take_compacted A s ≡ some s'
      → HasRuns R D s'
  unfolding take_compacted
  take_compacted-HasRuns R D s s' h n e = elim (List-cases s.compacting.results) [
    | inl z ↦ subst (HasRuns R D) (some-injective _ _ (rw (z, take_compacted) at e)) h
    | inr (r, rs, z) ↦ elim (Option-cases (ready s.compacting)) [
      | inl q ↦ cc (rw (z, q, take_compacted) at e)
      | inr (p, q) ↦
          subst (HasRuns R D) (some-injective _ _ (rw (z, q, take_compacted) at e)) (record {
            handed = h.handed;
            finished = h.finished ++ p.1;
            compacting_run = readied h.compacting_run q;
            writing_run = h.writing_run;
            kept =
                rows_of-append h.finished p.1
                ∙ ap (λ xs. xs ++ rows_of p.1)
                    (h.kept ∙ ap (λ o. rows_of h.handed ++ held_rows o) n ∙ append_nil _)
                ∙ ap (rows_of h.handed ++◌) (sym (rows-compacted p.1));
            calls = h.calls;
          })
    ]
  ]

  write_batch-HasRuns :
      (R D : List A.Batch) (answer : Result (Unit {0})) (s s' : RwBuffer A)
      → HasRuns R D s
      → write_batch A answer accepted s ≡ some s'
      → HasRuns R D s'
  unfolding write_batch rows_of
  write_batch-HasRuns R D answer s s' h e = elim (Option-cases s.in_hand) [
    | inl n ↦ subst (HasRuns R D) (some-injective _ _ (rw (n, write_batch) at e)) h
    | inr (b, n) ↦ elim (Option-cases (try_process accepted (enqueue b s.writing))) [
      | inl q ↦ cc (rw (n, q, write_batch) at e)
      | inr (r, q) ↦
          subst (HasRuns R D) (some-injective _ _ (rw (n, q, write_batch) at e)) (record {
            handed = h.handed ++ b ∷ [];
            finished = h.finished;
            compacting_run = h.compacting_run;
            writing_run = processed (pushed b h.writing_run) q;
            kept =
                h.kept
                ∙ ap (λ o. rows_of h.handed ++ held_rows o) n
                ∙ sym (ap (rows_of h.handed ++◌) (append_nil (A.rows b)))
                ∙ sym (rows_of-append h.handed (b ∷ []))
                ∙ sym (append_nil _);
            calls = call-HasCalls A D s.writing r.0 s.writes b answer r.1 h.calls q;
          })
    ]
  ]

  take_written-HasRuns :
      (R D bs : List A.Batch) (s s' : RwBuffer A)
      → HasRuns R D s
      → take_written A s ≡ some (s', bs)
      → HasRuns R (D ++ bs) s'
  unfolding take_written
  take_written-HasRuns R D bs s s' h e = elim (Option-cases (ready s.writing)) [
    | inl q ↦ cc (rw (q, take_written) at e)
    | inr (r, q) ↦
        subst (λ x. HasRuns R (D ++ x.1) x.0) (some-injective _ _ (rw (q, take_written) at e))
          (record {
            handed = h.handed;
            finished = h.finished;
            compacting_run = h.compacting_run;
            writing_run = readied h.writing_run q;
            kept = h.kept;
            calls = readied-HasCalls A D r.1 s.writing r.0 s.writes h.calls q;
          })
  ]

  complete_write-HasRuns :
      (R D : List A.Batch) (came : Bool) (s s' : RwBuffer A)
      → HasRuns R D s
      → complete_write A came accepted s ≡ some s'
      → HasRuns R D s'
  unfolding complete_write
  complete_write-HasRuns R D came s s' h e = elim (List-cases s.writing.pending) [
    | inl z ↦ subst (HasRuns R D) (some-injective _ _ (rw (z, complete_write) at e)) h
    | inr (vs, rest, z) ↦ elim (Option-cases (complete accepted s.writing)) [
      | inl q ↦ cc (rw (z, q, complete_write) at e)
      | inr (r, q) ↦
          subst (HasRuns R D) (some-injective _ _ (rw (z, q, complete_write) at e)) (record {
            handed = h.handed;
            finished = h.finished;
            compacting_run = h.compacting_run;
            writing_run = completed h.writing_run q;
            kept = h.kept;
            calls = completed-HasCalls A D s.writing r s.writes came vs rest h.calls z q;
          })
    ]
  ]

  moved-Run :
      {B : Type 0} (P D : List B) (q r : WorkQueue B)
      → Run P D q
      → (r ≡ receive q) ⊎ (complete accepted q ≡ some r)
      → Run P D r
  moved-Run P D q r h (inl e) = subst (Run P D) (sym e) (received h)
  moved-Run P D q r h (inr e) = completed h e

  HasRuns-rows :
      (R D : List A.Batch) (s : RwBuffer A)
      → HasRuns R D s
      → rows_of R
        ≡ rows_of D
          ++ (rows_of (reverse s.writing.values.items)
              ++ (held_rows s.in_hand ++ rows_of (reverse s.compacting.values.items)))
  HasRuns-rows R D s h =
      let (rest, e, items) = Run-items R h.finished s.compacting h.compacting_run in
      let (rest', e', items') = Run-items h.handed D s.writing h.writing_run in
      let k : rows_of (reverse s.compacting.values.items) ≡ rows_of rest =
        ap (λ xs. rows_of (reverse xs)) items ∙ ap rows_of (reverse-reverse rest) in
      let k' : rows_of (reverse s.writing.values.items) ≡ rows_of rest' =
        ap (λ xs. rows_of (reverse xs)) items' ∙ ap rows_of (reverse-reverse rest') in
      let handed : rows_of h.handed ≡ rows_of D ++ rows_of rest' =
        ap rows_of e' ∙ rows_of-append D rest' in
      rw (k, k')
        (ap rows_of e
          ∙ rows_of-append h.finished rest
          ∙ ap (λ xs. xs ++ rows_of rest) (h.kept ∙ ap (λ xs. xs ++ held_rows s.in_hand) handed)
          ∙ append_assoc (rows_of D ++ rows_of rest') (held_rows s.in_hand) (rows_of rest)
          ∙ append_assoc (rows_of D) (rows_of rest') (held_rows s.in_hand ++ rows_of rest))

  pub run-HasRuns :
      (size : ℕ) (R D : List A.Batch) (s : RwBuffer A) → BufferRun A size R D s → HasRuns R D s
  unfolding new_buffer rows_of
  run-HasRuns size R D s started = record {
    handed = [];
    finished = [];
    compacting_run = start;
    writing_run = start;
    kept = refl;
    calls = new-HasCalls A;
  }
  run-HasRuns size R D s (batch_received {R = R'} {s = s'} b r e) =
      receive_batch-HasRuns R' D size b s' s (run-HasRuns size R' D s' r) e
  run-HasRuns size R D s (rest_compacted {s = s'} r e) =
      compact_rest-HasRuns R D s' s (run-HasRuns size R D s' r) e
  run-HasRuns size R D s (compacted_taken {s = s'} r n e) =
      take_compacted-HasRuns R D s' s (run-HasRuns size R D s' r) n e
  run-HasRuns size R D s (batch_written {s = s'} answer r e) =
      write_batch-HasRuns R D answer s' s (run-HasRuns size R D s' r) e
  run-HasRuns size R D s (written_taken {D = D'} {bs = bs} {s = s'} r e) =
      take_written-HasRuns R D' bs s' s (run-HasRuns size R D' s' r) e
  run-HasRuns size R D s (compacting_moved {s = s'} r e) =
      let h = run-HasRuns size R D s' r in
      record {
        handed = h.handed;
        finished = h.finished;
        compacting_run = moved-Run R h.finished s'.compacting _ h.compacting_run e;
        writing_run = h.writing_run;
        kept = h.kept;
        calls = h.calls;
      }
  run-HasRuns size R D s (write_received {s = s'} r) =
      let h = run-HasRuns size R D s' r in
      record {
        handed = h.handed;
        finished = h.finished;
        compacting_run = h.compacting_run;
        writing_run = received h.writing_run;
        kept = h.kept;
        calls = received-HasCalls A D s'.writing s'.writes h.calls;
      }
  run-HasRuns size R D s (write_completed {s = s'} came r e) =
      complete_write-HasRuns R D came s' s (run-HasRuns size R D s' r) e

  -- In every run of the buffer in which each `try_send` was accepted: the rows received are, in order,
  -- those of the jobs whose end the worker has seen, those that a scan finds in the queue of writes,
  -- those of the batch between the two queues, if there is one, which no scan finds, and those that a
  -- scan finds in the queue of compactions; a scan lists the batches of each queue the newest first.
  -- The batches passed to the shard manager, by calls that it refused or not, are, in order, those of
  -- the jobs whose end the worker has seen and those that a scan finds in the queue of writes. The
  -- calls are those whose job is over, in order, and then those whose job is not, and the batches of
  -- the former start with those of the jobs whose end the worker has seen. Whether the rows of a job
  -- that is over were written is not said: a refused call and a lost answer end the job as well.
  pub run-rows :
      (size : ℕ) (R D : List A.Batch) (s : RwBuffer A)
      → BufferRun A size R D s
      → (rows_of R
          ≡ rows_of D
            ++ (rows_of (reverse (scan A s).0)
                ++ (held_rows s.in_hand ++ rows_of (reverse (scan A s).1))))
        × (called A s.writes.calls ≡ D ++ reverse (scan A s).0)
        × (ended A s.writes.over ++ s.writes.running ≡ s.writes.calls)
        × ((rest : List A.Batch) × (called A (ended A s.writes.over) ≡ D ++ rest))
  unfolding scan
  run-rows size R D s r =
      let h = run-HasRuns size R D s r in
      (
        HasRuns-rows R D s h,
        called-items A D s.writing s.writes h.calls,
        h.calls.all,
        (_, h.calls.over),
      )
