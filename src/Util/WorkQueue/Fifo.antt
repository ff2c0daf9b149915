-- ===== src/Util/WorkQueue/Fifo.antt =====
-- The values of a work queue (ella-engine/src/util/work_queue.rs), by how far they have come: fresh,
-- or in flight with a job.
use ella.Prelude.{
  ℕ, ◌+◌, ◌-◌, ◌≡◌, refl, sym, ◌∙◌, ap, some, List, [], ◌∷◌, ◌++◌, All, arith, length, reverse,
  append_assoc, append_nil, reverse-append, reverse-reverse, length-reverse, length-append,
  take-append, drop-append, take-length,
}
use ella.Prelude.Result.{ok}
use ella.Util.WorkQueue.{
  ValueTracker, WorkQueue, accepted, new_count, process, finish, new, enqueue, push, try_process,
}

module _ {A : Type 0} where
  -- The values of jobs, in order.
  abbrev pub values_of : List (ℕ × List A) → List A
  values_of [] = []
  values_of (j ∷ js) = j.1 ++ values_of js

  abbrev pub futures_of : List (List A) → List A
  futures_of [] = []
  futures_of (vs ∷ vss) = vs ++ futures_of vss

  -- The values given to jobs whose results have not been received, the oldest first.
  abbrev pub in_flight : WorkQueue A → List A
  in_flight q = values_of q.results ++ (futures_of q.pending ++ values_of q.incoming)

  abbrev pub IsCounted : ℕ × List A → Type 0
  IsCounted j = j.0 ≡ length j.1

  -- The two queues of `process_queue` run in step.
  abbrev pub InStep : List ℕ → List (List A) → Type 0
  InStep [] [] = Unit
  InStep [] (v ∷ vs) = ⊥
  InStep (c ∷ cs) [] = ⊥
  InStep (c ∷ cs) (v ∷ vs) = (c ≡ length v) × InStep cs vs

  -- The tracker holds the values in flight and the fresh ones, and has marked those in flight.
  pub record IsConsistent (q : WorkQueue A) (fresh : List A) : Type 0 where
    pub items : q.values.items ≡ reverse (in_flight q ++ fresh)
    pub marked : q.values.pending ≡ length (in_flight q)
    pub sent : All IsCounted q.incoming
    pub in_step : InStep q.counts q.pending
    pub received : All IsCounted q.results

  pub values_of-append :
      (xs : List (ℕ × List A)) (j : ℕ × List A) → values_of (xs ++ j ∷ []) ≡ values_of xs ++ j.1
  values_of-append [] j = append_nil j.1
  values_of-append (x ∷ xs) j =
      rw (values_of-append xs j) (sym (append_assoc x.1 (values_of xs) j.1))

  pub futures_of-append :
      (xs : List (List A)) (vs : List A) → futures_of (xs ++ vs ∷ []) ≡ futures_of xs ++ vs
  futures_of-append [] vs = append_nil vs
  futures_of-append (x ∷ xs) vs =
      rw (futures_of-append xs vs) (sym (append_assoc x (futures_of xs) vs))

  pub InStep-append :
      (cs : List ℕ) (vss : List (List A)) (c : ℕ) (vs : List A)
      → InStep cs vss
      → c ≡ length vs
      → InStep (cs ++ c ∷ []) (vss ++ vs ∷ [])
  InStep-append [] [] c vs h e = (e, tt)
  InStep-append [] (y ∷ ys) c vs h e = absurd h
  InStep-append (x ∷ xs) [] c vs h e = absurd h
  InStep-append (x ∷ xs) (y ∷ ys) c vs h e = (h.0, InStep-append xs ys c vs h.1 e)

  -- Processing hands out exactly the fresh values.
  pub process_lem :
      (t : ValueTracker A) (flight fresh : List A)
      → t.items ≡ reverse (flight ++ fresh)
      → t.pending ≡ length flight
      → (new_count t ≡ length fresh)
        × (process (length fresh) t
            ≡ some (record t { pending = length flight + length fresh }, fresh))
  unfolding process new_count
  process_lem t flight fresh h k =
      rw
        (
          h,
          k,
          length-reverse (flight ++ fresh),
          length-append flight fresh,
          reverse-reverse (flight ++ fresh),
          drop-append flight fresh,
          take-length fresh,
        )
        (ground arith)

  -- Finishing the oldest values forgets them and no others.
  pub finish_lem :
      (t : ValueTracker A) (done flight fresh : List A)
      → t.items ≡ reverse ((done ++ flight) ++ fresh)
      → t.pending ≡ length (done ++ flight)
      → finish (length done) t
        ≡ some (record { items = reverse (flight ++ fresh); pending = length flight })
  unfolding finish
  finish_lem t done flight fresh h k =
      let split =
        h ∙ ap reverse (append_assoc done flight fresh) ∙ reverse-append done (flight ++ fresh) in
      let rest = reverse (flight ++ fresh) in
      let n : length t.items - length done ≡ length rest =
        rw (split, length-append rest (reverse done), length-reverse done) (omega arith) in
      rw
        (
          n,
          split,
          k,
          take-append rest (reverse done),
          length-append done flight,
          length-append rest (reverse done),
          length-reverse done,
        )
        (ground arith)

  -- The empty queue is consistent, and pushing a value makes it the newest fresh one.
  pub new-IsConsistent : IsConsistent new []
  unfolding new
  new-IsConsistent = record { items = refl; marked = refl; sent = tt; in_step = tt; received = tt }

  pub enqueue-IsConsistent :
      (x : A) (q : WorkQueue A) (fresh : List A)
      → IsConsistent q fresh
      → IsConsistent (enqueue x q) (fresh ++ x ∷ [])
  unfolding enqueue push
  enqueue-IsConsistent x q fresh c = record {
    items = rw c.items (
        sym (
          ap reverse (sym (append_assoc (in_flight q) fresh (x ∷ [])))
          ∙ reverse-append (in_flight q ++ fresh) (x ∷ [])));
    marked = c.marked;
    sent = c.sent;
    in_step = c.in_step;
    received = c.received;
  }

  -- An accepted `try_process` makes one job of the fresh values.
  pub try_process-accepted :
      (q : WorkQueue A) (fresh : List A) (c : IsConsistent q fresh)
      → try_process accepted q
        ≡ some (
          record q {
            values = record q.values { pending = length (in_flight q) + length fresh };
            incoming = q.incoming ++ (length fresh, fresh) ∷ [];
          },
          ok tt,
        )
  unfolding try_process
  try_process-accepted q fresh c =
      let (n, p) = process_lem q.values (in_flight q) fresh c.items c.marked in rw (n, p) refl

  pub in_flight-sent :
      (q : WorkQueue A) (v : ValueTracker A) (n : ℕ) (vs : List A)
      → in_flight (record q { values = v; incoming = q.incoming ++ (n, vs) ∷ [] })
        ≡ in_flight q ++ vs
  in_flight-sent q v n vs = rw (values_of-append q.incoming (n, vs)) (
      ap (λ ws. values_of q.results ++ ws)
        (sym (append_assoc (futures_of q.pending) (values_of q.incoming) vs))
      ∙ sym (append_assoc (values_of q.results) (futures_of q.pending ++ values_of q.incoming) vs))
