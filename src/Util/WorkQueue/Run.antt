-- ===== src/Util/WorkQueue/Run.antt =====
-- Runs of a work queue (ella-engine/src/util/work_queue.rs): sequences of calls at its two ends and of
-- the arms of `process_queue`, in any order.
use ella.Prelude.{
  ℕ, ◌+◌, ◌≡◌, refl, sym, ◌∙◌, ap, ◌≢◌, none, some, List, [], ◌∷◌, ◌++◌, All-append, arith, length,
  reverse, append_assoc, append_nil, length-append,
}
use mathlib.Core.Path.{subst}
use mathlib.Core.Option.{some-injective}
use ella.Prelude.Result.{Result, ok, err, table_queue_full}
use ella.Util.WorkQueue.{
  ValueTracker, WorkQueue, Sent, accepted, closed, full, new, enqueue, try_process, receive,
  complete, ready, hand_over,
}
use ella.Util.WorkQueue.Fifo.{
  IsConsistent, IsCounted, InStep, InStep-append, in_flight, values_of, futures_of,
  values_of-append, futures_of-append, process_lem, finish_lem, new-IsConsistent,
  enqueue-IsConsistent, try_process-accepted, in_flight-sent,
}

module _ {A : Type 0} where
  -- A run in which every `try_send` was accepted: the values pushed and those whose jobs have
  -- finished, each the oldest first, and the queue it leads to.
  pub data Run : List A → List A → WorkQueue A → Type 0 where
    start : Run [] [] new
    pushed :
        {P D : List A} {q : WorkQueue A} (x : A) → Run P D q → Run (P ++ x ∷ []) D (enqueue x q)
    processed :
        {P D : List A} {q q' : WorkQueue A} {r : Result (Unit {0})}
        → Run P D q
        → try_process accepted q ≡ some (q', r)
        → Run P D q'
    received : {P D : List A} {q : WorkQueue A} → Run P D q → Run P D (receive q)
    completed :
        {P D : List A} {q q' : WorkQueue A} → Run P D q → complete accepted q ≡ some q' → Run P D q'
    readied :
        {P D : List A} {q q' : WorkQueue A} {vs : List A}
        → Run P D q
        → ready q ≡ some (q', vs)
        → Run P (D ++ vs) q'

  pub processed-IsConsistent :
      (q : WorkQueue A) (fresh : List A)
      → IsConsistent q fresh
      → IsConsistent
          (record q {
            values = record q.values { pending = length (in_flight q) + length fresh };
            incoming = q.incoming ++ (length fresh, fresh) ∷ [];
          })
          []
  processed-IsConsistent q fresh c =
      let e =
        in_flight-sent q (record q.values { pending = length (in_flight q) + length fresh })
          (length fresh) fresh in
      record {
        items = rw (c.items, e) (ap reverse (sym (append_nil (in_flight q ++ fresh))));
        marked = rw (e) (sym (length-append (in_flight q) fresh));
        sent = All-append IsCounted q.incoming _ c.sent (refl, tt);
        in_step = c.in_step;
        received = c.received;
      }

  -- The moves inside the queue change neither the values in flight nor the tracker.
  pub received-IsConsistent :
      (v : ValueTracker A) (incoming : List (ℕ × List A)) (pending : List (List A))
      (counts : List ℕ) (results : List (ℕ × List A)) (fresh : List A)
      → let q : WorkQueue A = record {
        values = v;
        incoming = incoming;
        pending = pending;
        counts = counts;
        results = results;
      } in
        IsConsistent q fresh
        → (in_flight (receive q) ≡ in_flight q) × IsConsistent (receive q) fresh
  unfolding receive
  received-IsConsistent v [] pending counts results fresh c = (refl, c)
  received-IsConsistent v (job ∷ rest) pending counts results fresh c =
      let e =
        ap (λ ws. values_of results ++ ws)
          (ap (λ ws. ws ++ values_of rest) (futures_of-append pending job.1)
            ∙ append_assoc (futures_of pending) job.1 (values_of rest)) in
      (
        e,
        record {
          items = rw e (c.items);
          marked = rw e (c.marked);
          sent = c.sent.1;
          in_step = InStep-append counts pending job.0 job.1 c.in_step c.sent.0;
          received = c.received;
        },
      )

  pub completed-IsConsistent :
      (v : ValueTracker A) (incoming : List (ℕ × List A)) (pending : List (List A))
      (counts : List ℕ) (results : List (ℕ × List A)) (fresh : List A)
      → let q : WorkQueue A = record {
        values = v;
        incoming = incoming;
        pending = pending;
        counts = counts;
        results = results;
      } in
        IsConsistent q fresh
        → (q' : WorkQueue A) × (complete accepted q ≡ some q')
          × (in_flight q' ≡ in_flight q)
          × IsConsistent q' fresh
  unfolding complete
  completed-IsConsistent v incoming [] counts results fresh c = (_, refl, refl, c)
  completed-IsConsistent v incoming (vs ∷ pending) [] results fresh c = absurd (c.in_step)
  completed-IsConsistent v incoming (vs ∷ pending) (count ∷ counts) results fresh c =
      let e =
        ap (λ ws. ws ++ (futures_of pending ++ values_of incoming))
          (values_of-append results (count, vs))
        ∙ append_assoc (values_of results) vs (futures_of pending ++ values_of incoming)
        ∙ ap (λ ws. values_of results ++ ws)
            (sym (append_assoc vs (futures_of pending) (values_of incoming))) in
      (
        _,
        refl,
        e,
        record {
          items = rw e (c.items);
          marked = rw e (c.marked);
          sent = c.sent;
          in_step = c.in_step.1;
          received = All-append IsCounted results _ c.received (c.in_step.0, tt);
        },
      )

  -- The end that receives a result forgets the oldest values in flight, which are those of its job.
  pub readied-IsConsistent :
      (v : ValueTracker A) (incoming : List (ℕ × List A)) (pending : List (List A))
      (counts : List ℕ) (results : List (ℕ × List A)) (fresh : List A)
      → let q : WorkQueue A = record {
        values = v;
        incoming = incoming;
        pending = pending;
        counts = counts;
        results = results;
      } in
        IsConsistent q fresh
        → (q' : WorkQueue A) × (vs : List A) × (ready q ≡ some (q', vs))
          × (in_flight q ≡ vs ++ in_flight q')
          × IsConsistent q' fresh
  unfolding ready
  readied-IsConsistent v incoming pending counts [] fresh c = (_, _, refl, refl, c)
  readied-IsConsistent v incoming pending counts ((n, vs) ∷ rest) fresh c =
      let flight = values_of rest ++ (futures_of pending ++ values_of incoming) in
      let e = append_assoc vs (values_of rest) (futures_of pending ++ values_of incoming) in
      let f = finish_lem v vs flight fresh (rw e at c.items) (rw e at c.marked) in
      (
        _,
        vs,
        rw (c.received.0, f) refl,
        e,
        record {
          items = refl;
          marked = refl;
          sent = c.sent;
          in_step = c.in_step;
          received = c.received.1;
        },
      )

  -- In a run in which every `try_send` was accepted, the values pushed are those whose jobs have
  -- finished, then those given to jobs in flight, then the fresh ones, each in the order of pushing;
  -- and the tracker holds and has marked what it should.
  pub Run-IsConsistent :
      (P D : List A) (q : WorkQueue A)
      → Run P D q
      → (fresh : List A) × (P ≡ D ++ (in_flight q ++ fresh)) × IsConsistent q fresh
  unfolding new enqueue
  Run-IsConsistent P D q start = ([], refl, new-IsConsistent)
  Run-IsConsistent P D q (pushed {P = P'} {q = q'} x r) =
      let (fresh, e, c) = Run-IsConsistent P' D q' r in
      (
        fresh ++ x ∷ [],
        ap (λ ws. ws ++ x ∷ []) e
            ∙ append_assoc D (in_flight q' ++ fresh) (x ∷ [])
            ∙ ap (λ ws. D ++ ws) (append_assoc (in_flight q') fresh (x ∷ [])),
        enqueue-IsConsistent x q' fresh c,
      )
  Run-IsConsistent P D q (processed {q = q'} r h) =
      let (fresh, e, c) = Run-IsConsistent P D q' r in
      let sent = record q' {
        values = record q'.values { pending = length (in_flight q') + length fresh };
        incoming = q'.incoming ++ (length fresh, fresh) ∷ [];
      } in
      let k : sent ≡ q =
        ap (λ a. a.0) (some-injective _ _ (sym (try_process-accepted q' fresh c) ∙ h)) in
      subst (λ q. (fresh : List A) × (P ≡ D ++ (in_flight q ++ fresh)) × IsConsistent q fresh) k
        (
          [],
          e
              ∙ ap (λ ws. D ++ ws)
                  (sym (in_flight-sent q' sent.values (length fresh) fresh)
                    ∙ sym (append_nil (in_flight sent))),
          processed-IsConsistent q' fresh c,
        )
  Run-IsConsistent P D q (received {q = q'} r) =
      let (fresh, e, c) = Run-IsConsistent P D q' r in
      let (f, d) =
        received-IsConsistent q'.values q'.incoming q'.pending q'.counts q'.results fresh c in
      (fresh, e ∙ ap (λ ws. D ++ (ws ++ fresh)) (sym f), d)
  Run-IsConsistent P D q (completed {q = q'} r h) =
      let (fresh, e, c) = Run-IsConsistent P D q' r in
      let (next, k, f, d) =
        completed-IsConsistent q'.values q'.incoming q'.pending q'.counts q'.results fresh c in
      subst (λ q. (fresh : List A) × (P ≡ D ++ (in_flight q ++ fresh)) × IsConsistent q fresh)
        (some-injective next q (sym k ∙ h)) (fresh, e ∙ ap (λ ws. D ++ (ws ++ fresh)) (sym f), d)
  Run-IsConsistent P D q (readied {D = D'} {q = q'} {vs = vs} r h) =
      let (fresh, e, c) = Run-IsConsistent P D' q' r in
      let (next, us, k, f, d) =
        readied-IsConsistent q'.values q'.incoming q'.pending q'.counts q'.results fresh c in
      let g = some-injective (next, us) (q, vs) (sym k ∙ h) in
      subst
        (λ a.
          (fresh : List A) × (P ≡ (D' ++ a.1) ++ (in_flight a.0 ++ fresh)) × IsConsistent a.0 fresh)
        g
        (
          fresh,
          e
              ∙ ap (λ ws. D' ++ (ws ++ fresh)) f
              ∙ ap (λ ws. D' ++ ws) (append_assoc us (in_flight next) fresh)
              ∙ sym (append_assoc D' us (in_flight next ++ fresh)),
          d,
        )

  -- In a run in which every `try_send` was accepted, the jobs finish in the order in which their
  -- values were pushed, and the values that a reader sees are exactly those pushed whose jobs have
  -- not finished, the newest first.
  pub Run-items :
      (P D : List A) (q : WorkQueue A)
      → Run P D q
      → (rest : List A) × (P ≡ D ++ rest) × (q.values.items ≡ reverse rest)
  Run-items P D q r =
      let (fresh, e, c) = Run-IsConsistent P D q r in (in_flight q ++ fresh, e, c.items)

  complete-some :
      (sent : Sent) (v : ValueTracker A) (incoming : List (ℕ × List A)) (pending : List (List A))
      (counts : List ℕ) (results : List (ℕ × List A))
      → InStep counts pending
      → complete sent (record {
        values = v;
        incoming = incoming;
        pending = pending;
        counts = counts;
        results = results;
      })
        ≢ none
  unfolding complete
  complete-some sent v incoming [] counts results h e = cc
  complete-some sent v incoming (vs ∷ pending) [] results h e = h
  complete-some accepted v incoming (vs ∷ pending) (n ∷ counts) results h e = cc
  complete-some closed v incoming (vs ∷ pending) (n ∷ counts) results h e = cc
  complete-some full v incoming (vs ∷ pending) (n ∷ counts) results h e = cc

  try_process-eq :
      (sent : Sent) (q : WorkQueue A) (fresh : List A)
      → IsConsistent q fresh
      → try_process sent q
        ≡ hand_over sent
            (length fresh)
            (some (record q.values { pending = length (in_flight q) + length fresh }, fresh))
            q
  unfolding try_process
  try_process-eq sent q fresh c =
      let (n, p) = process_lem q.values (in_flight q) fresh c.items c.marked in rw (n, p) refl

  hand_over-some :
      (sent : Sent) (n : ℕ) (t : ValueTracker A) (vs : List A) (q : WorkQueue A)
      → hand_over sent n (some (t, vs)) q ≢ none
  hand_over-some accepted n t vs q e = cc
  hand_over-some closed n t vs q e = cc
  hand_over-some full n t vs q e = cc

  -- After a run in which every `try_send` was accepted, none of the queue's assertions, unwraps and
  -- subtractions can fail in the next call at an end or arm of `process_queue`, whether or not its own
  -- `try_send` is accepted.
  pub Run-no_panic :
      (P D : List A) (q : WorkQueue A) (sent : Sent)
      → Run P D q
      → (try_process sent q ≢ none) × (complete sent q ≢ none) × (ready q ≢ none)
  Run-no_panic P D q sent r =
      let (fresh, e, c) = Run-IsConsistent P D q r in
      let (next, us, k, f, d) =
        readied-IsConsistent q.values q.incoming q.pending q.counts q.results fresh c in
      (
        λ h. hand_over-some sent _ _ _ q (sym (try_process-eq sent q fresh c) ∙ h),
        complete-some sent q.values q.incoming q.pending q.counts q.results c.in_step,
        λ h. cc,
      )

  -- After a run in which every `try_send` was accepted, a `try_process` that finds the channel
  -- full returns `TableQueueFull` and sends no job, and the next `try_process`, if it is accepted,
  -- sends an empty job: the values that the first one took are in no job.
  pub refused-lost :
      (P D : List A) (q : WorkQueue A)
      → Run P D q
      → (q' : WorkQueue A) × (try_process full q ≡ some (q', err table_queue_full))
        × (q'.incoming ≡ q.incoming)
        × (try_process accepted q'
            ≡ some (record q' { incoming = q.incoming ++ (0, []) ∷ [] }, ok tt))
  unfolding try_process
  refused-lost P D q r =
      let (fresh, e, c) = Run-IsConsistent P D q r in
      let t = record q.values { pending = length (in_flight q) + length fresh } in
      let (n, p) =
        process_lem t (in_flight q ++ fresh) []
          (c.items ∙ ap reverse (sym (append_nil (in_flight q ++ fresh))))
          (sym (length-append (in_flight q) fresh)) in
      (
        record q { values = t },
        try_process-eq full q fresh c,
        refl,
        rw (n, p, length-append (in_flight q) fresh) (ground arith),
      )
