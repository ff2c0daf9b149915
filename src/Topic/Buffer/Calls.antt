-- ===== src/Topic/Buffer/Calls.antt =====
-- The calls of `ShardManager::write` that the buffer of a topic makes, and the queue of their jobs
-- (ella-engine/src/table/topic/rw.rs).
use mathlib.Core.Path.{subst}
use mathlib.Core.Option.{some-injective}
use ella.Prelude.{
  ℕ, Bool, ◌≡◌, refl, sym, ap, ◌∙◌, some, List, [], ◌∷◌, ◌++◌, map, map-append, append_assoc,
  append_nil, length, reverse, reverse-reverse, List-cases, inl, inr,
}
use ella.Prelude.Result.{Result}
use ella.Util.WorkQueue.{
  ValueTracker, WorkQueue, accepted, enqueue, try_process, receive, complete, ready,
}
use ella.Util.WorkQueue.Fifo.{
  IsConsistent, values_of, values_of-append, futures_of, in_flight, finish_lem, process_lem,
  new-IsConsistent, enqueue-IsConsistent, try_process-accepted,
}
use ella.Util.WorkQueue.Run.{
  processed-IsConsistent, received-IsConsistent, completed-IsConsistent, readied-IsConsistent,
}
use ella.Topic.Buffer.{
  Batches, WriteEnd, WriteCall, Writes, job_values, add_call, end_first, end_of, new_buffer,
}

heads_eq : {A : Type 0} {x y : A} {xs ys : List A} → x ∷ xs ≡ y ∷ ys → (x ≡ y) × (xs ≡ ys)
heads_eq {x = x} {xs = xs} e =
    (ap (λ zs. elim zs [ [] ↦ x | z ∷ _ ↦ z ]) e, ap (λ zs. elim zs [ [] ↦ xs | _ ∷ ws ↦ ws ]) e)

module _ (A : Batches) where
  -- The batches of calls, in order.
  unfoldable pub called : List (WriteCall A) → List A.Batch
  called [] = []
  called (c ∷ cs) = c.values ++ called cs

  unfoldable pub ended : List (WriteCall A × WriteEnd) → List (WriteCall A)
  ended [] = []
  ended (e ∷ es) = e.0 ∷ ended es

  pub called-append : (cs ds : List (WriteCall A)) → called (cs ++ ds) ≡ called cs ++ called ds
  unfolding called
  called-append [] ds = refl
  called-append (c ∷ cs) ds =
      ap (c.values ++◌) (called-append cs ds) ∙ sym (append_assoc c.values _ _)

  ended-append :
      (es : List (WriteCall A × WriteEnd)) (e : WriteCall A × WriteEnd)
      → ended (es ++ e ∷ []) ≡ ended es ++ e.0 ∷ []
  unfolding ended
  ended-append [] e = refl
  ended-append (x ∷ es) e = ap (x.0 ∷◌) (ended-append es e)

  abbrev values : WriteCall A → List A.Batch
  values c = c.values

  abbrev job : ℕ × List A.Batch → List A.Batch
  job j = j.1

  -- Every value of the queue is in a job, the running calls are those of its jobs in order, and the
  -- calls that are over are those of the batches `D` that the worker knows of and of the results.
  pub record HasCalls (D : List A.Batch) (q : WorkQueue A.Batch) (w : Writes A) : Type 0 where
    pub consistent : IsConsistent q []
    pub running : map values w.running ≡ q.pending ++ map job q.incoming
    pub over : called (ended w.over) ≡ D ++ values_of q.results
    pub all : ended w.over ++ w.running ≡ w.calls

  pub new-HasCalls : HasCalls [] (new_buffer A).writing (new_buffer A).writes
  unfolding new_buffer called ended
  new-HasCalls = record { consistent = new-IsConsistent; running = refl; over = refl; all = refl }

  pub job_values-fresh :
      (q : WorkQueue A.Batch) (fresh : List A.Batch) → IsConsistent q fresh → job_values A q ≡ fresh
  unfolding job_values
  job_values-fresh q fresh c =
      let (n, p) = process_lem q.values (in_flight q) fresh c.items c.marked in
      rw (job_values, n, p) refl

  -- A push and the job made of it.
  pub call-HasCalls :
      (D : List A.Batch) (q q' : WorkQueue A.Batch) (w : Writes A) (b : A.Batch)
      (answer r : Result (Unit {0}))
      → HasCalls D q w
      → try_process accepted (enqueue b q) ≡ some (q', r)
      → HasCalls D q'
          (add_call A (record { values = job_values A (enqueue b q); answer = answer }) r w)
  unfolding add_call enqueue
  call-HasCalls D q q' w b answer r h e =
      let c = enqueue-IsConsistent b q [] h.consistent in
      let call : WriteCall A = record { values = job_values A (enqueue b q); answer = answer } in
      subst (λ x. HasCalls D x.0 (add_call A call x.1 w))
        (some-injective _ _ (sym (try_process-accepted (enqueue b q) (b ∷ []) c) ∙ e))
        (record {
          consistent = processed-IsConsistent (enqueue b q) (b ∷ []) c;
          running =
              map-append values w.running call
              ∙ ap (λ vs. map values w.running ++ vs ∷ [])
                  (job_values-fresh (enqueue b q) (b ∷ []) c)
              ∙ ap (λ xs. xs ++ (b ∷ []) ∷ []) h.running
              ∙ append_assoc q.pending (map job q.incoming) ((b ∷ []) ∷ [])
              ∙ ap (q.pending ++◌) (sym (map-append job q.incoming (1, b ∷ [])));
          over = h.over;
          all =
              sym (append_assoc (ended w.over) w.running (call ∷ []))
              ∙ ap (λ cs. cs ++ call ∷ []) h.all;
        })

  receive-HasCalls :
      (D : List A.Batch) (v : ValueTracker A.Batch) (incoming : List (ℕ × List A.Batch))
      (pending : List (List A.Batch)) (counts : List ℕ) (results : List (ℕ × List A.Batch))
      (w : Writes A)
      → let q : WorkQueue A.Batch = record {
        values = v;
        incoming = incoming;
        pending = pending;
        counts = counts;
        results = results;
      } in
        HasCalls D q w → HasCalls D (receive q) w
  unfolding receive
  receive-HasCalls D v [] pending counts results w h = h
  receive-HasCalls D v (j ∷ js) pending counts results w h = record {
    consistent = (received-IsConsistent v (j ∷ js) pending counts results [] h.consistent).1;
    running = h.running ∙ sym (append_assoc pending (j.1 ∷ []) (map job js));
    over = h.over;
    all = h.all;
  }

  pub received-HasCalls :
      (D : List A.Batch) (q : WorkQueue A.Batch) (w : Writes A)
      → HasCalls D q w
      → HasCalls D (receive q) w
  received-HasCalls D q w h =
      receive-HasCalls D q.values q.incoming q.pending q.counts q.results w h

  -- The job of the oldest future ends.
  complete-HasCalls :
      (D : List A.Batch) (v : ValueTracker A.Batch) (incoming : List (ℕ × List A.Batch))
      (vs : List A.Batch) (pending : List (List A.Batch)) (counts : List ℕ)
      (results : List (ℕ × List A.Batch)) (w : Writes A) (came : Bool) (q' : WorkQueue A.Batch)
      → let q : WorkQueue A.Batch = record {
        values = v;
        incoming = incoming;
        pending = vs ∷ pending;
        counts = counts;
        results = results;
      } in
        HasCalls D q w → complete accepted q ≡ some q' → HasCalls D q' (end_first A came w)
  unfolding complete end_first called ended
  complete-HasCalls D v incoming vs pending [] results w came q' h e = absurd h.consistent.in_step
  complete-HasCalls D v incoming vs pending (n ∷ ns) results w came q' h e =
      elim (List-cases w.running) [
        | inl z ↦ absurd (cc (sym h.running ∙ ap (map values) z))
        | inr (c, rest, z) ↦
            let (first, others) = heads_eq (sym (ap (map values) z) ∙ h.running) in
            let (next, k, f, d) =
              completed-IsConsistent v incoming (vs ∷ pending) (n ∷ ns) results [] h.consistent in
            rw (end_first, z)
              (subst
                (λ q.
                  HasCalls D q
                    (record w { running = rest; over = w.over ++ (c, end_of c.answer came) ∷ [] }))
                (some-injective _ _ e)
                (record {
                  consistent =
                      subst (λ q. IsConsistent q []) (some-injective _ _ (sym k ∙ e ∙ sym e)) d;
                  running = others;
                  over =
                      ap called (ended-append w.over (c, end_of c.answer came))
                      ∙ called-append (ended w.over) (c ∷ [])
                      ∙ ap (called (ended w.over) ++◌) (append_nil c.values ∙ first)
                      ∙ ap (λ xs. xs ++ vs) h.over
                      ∙ append_assoc D (values_of results) vs
                      ∙ ap (D ++◌) (sym (values_of-append results (n, vs)));
                  all =
                      ap (λ cs. cs ++ rest) (ended-append w.over (c, end_of c.answer came))
                      ∙ append_assoc (ended w.over) (c ∷ []) rest
                      ∙ ap (ended w.over ++◌) (sym z)
                      ∙ h.all;
                }))
      ]

  pub completed-HasCalls :
      (D : List A.Batch) (q q' : WorkQueue A.Batch) (w : Writes A) (came : Bool) (vs : List A.Batch)
      (rest : List (List A.Batch))
      → HasCalls D q w
      → q.pending ≡ vs ∷ rest
      → complete accepted q ≡ some q'
      → HasCalls D q' (end_first A came w)
  completed-HasCalls D q q' w came vs rest h z =
      subst
        (λ pending.
          let p : WorkQueue A.Batch = record q { pending = pending } in
          HasCalls D p w → complete accepted p ≡ some q' → HasCalls D q' (end_first A came w))
        (sym z) (complete-HasCalls D q.values q.incoming vs rest q.counts q.results w came q') h

  ready_fields :
      (v : ValueTracker A.Batch) (incoming : List (ℕ × List A.Batch))
      (pending : List (List A.Batch)) (counts : List ℕ) (results : List (ℕ × List A.Batch))
      → let q : WorkQueue A.Batch = record {
        values = v;
        incoming = incoming;
        pending = pending;
        counts = counts;
        results = results;
      } in
        IsConsistent q []
        → (v' : ValueTracker A.Batch) × (vs : List A.Batch) × (rest : List (ℕ × List A.Batch))
          × (ready q ≡ some (record q { values = v'; results = rest }, vs))
          × (values_of results ≡ vs ++ values_of rest)
  unfolding ready
  ready_fields v incoming pending counts [] c = (v, [], [], refl, refl)
  ready_fields v incoming pending counts ((n, vs) ∷ rest) c =
      let flight = values_of rest ++ (futures_of pending ++ values_of incoming) in
      let e = append_assoc vs (values_of rest) (futures_of pending ++ values_of incoming) in
      let f = finish_lem v vs flight [] (rw e at c.items) (rw e at c.marked) in
      (
        record { items = reverse (flight ++ []); pending = length flight },
        vs,
        rest,
        rw (c.received.0, f) refl,
        refl,
      )

  pub readied-HasCalls :
      (D bs : List A.Batch) (q q' : WorkQueue A.Batch) (w : Writes A)
      → HasCalls D q w
      → ready q ≡ some (q', bs)
      → HasCalls (D ++ bs) q' w
  readied-HasCalls D bs q q' w h e =
      let (v, vs, rest, k, f) =
        ready_fields q.values q.incoming q.pending q.counts q.results h.consistent in
      let (next, us, k', g, d) =
        readied-IsConsistent q.values q.incoming q.pending q.counts q.results [] h.consistent in
      let same : (next, us) ≡ (record q { values = v; results = rest }, vs) =
        some-injective _ _ (sym k' ∙ k) in
      subst (λ x. HasCalls (D ++ x.1) x.0 w) (some-injective _ _ (sym k ∙ e))
        (record {
          consistent = subst (λ x. IsConsistent x.0 []) same d;
          running = h.running;
          over = h.over ∙ ap (D ++◌) f ∙ sym (append_assoc D vs (values_of rest));
          all = h.all;
        })

  running-values :
      (cs : List (WriteCall A)) (pending : List (List A.Batch)) (incoming : List (ℕ × List A.Batch))
      → map values cs ≡ pending ++ map job incoming
      → called cs ≡ futures_of pending ++ values_of incoming
  unfolding called
  running-values [] [] [] e = refl
  running-values [] [] (j ∷ js) e = absurd (cc e)
  running-values [] (vs ∷ pending) js e = absurd (cc e)
  running-values (c ∷ cs) [] [] e = absurd (cc e)
  running-values (c ∷ cs) [] (j ∷ js) e =
      let (x, y) = heads_eq e in
      ap (λ xs. xs ++ called cs) x ∙ ap (j.1 ++◌) (running-values cs [] js y)
  running-values (c ∷ cs) (vs ∷ pending) js e =
      let (x, y) = heads_eq e in
      ap (λ xs. xs ++ called cs) x
      ∙ ap (vs ++◌) (running-values cs pending js y)
      ∙ sym (append_assoc vs (futures_of pending) (values_of js))

  -- The batches of the calls are those of `D` and then those that a reader of the queue finds.
  pub called-items :
      (D : List A.Batch) (q : WorkQueue A.Batch) (w : Writes A)
      → HasCalls D q w
      → called w.calls ≡ D ++ reverse q.values.items
  called-items D q w h =
      ap called (sym h.all)
      ∙ called-append (ended w.over) w.running
      ∙ ap (called (ended w.over) ++◌) (running-values w.running q.pending q.incoming h.running)
      ∙ ap (λ xs. xs ++ (futures_of q.pending ++ values_of q.incoming)) h.over
      ∙ append_assoc D (values_of q.results) (futures_of q.pending ++ values_of q.incoming)
      ∙ ap (D ++◌) (
          sym (
            ap reverse h.consistent.items
            ∙ reverse-reverse (in_flight q ++ [])
            ∙ append_nil (in_flight q)))
