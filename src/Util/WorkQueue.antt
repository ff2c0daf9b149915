-- ===== src/Util/WorkQueue.antt =====
-- ella-engine/src/util/work_queue.rs: record batches on their way through a worker. A job stands for
-- the future of the values that it was given. A failed `debug_assert!`, an `unwrap` of nothing and a
-- subtraction below zero are `none`. The two bounded channels deliver in order; whether a `try_send`
-- is accepted is an argument.

pub mod Fifo
pub mod Run
use ella.Prelude.{
  ℕ, ◌+◌, ◌-◌, Bool, true, false, Option, none, some, List, [], ◌∷◌, ◌++◌, leb, if◌then◌else◌,
  length, take, drop, reverse,
}
use ella.Prelude.Result.{Result, ok, err, table_closed, table_queue_full}

-- `items` has the newest value at its front.
pub record ValueTracker (A : Type 0) : Type 0 where
  pub items : List A
  pub pending : ℕ

-- What `try_send` answers.
pub data Sent : Type 0 where
  accepted closed full : Sent

-- The tracker that both ends share, the channel into the worker, the futures and counts that
-- `process_queue` holds, and the channel out of it.
pub record WorkQueue (A : Type 0) : Type 0 where
  pub values : ValueTracker A
  pub incoming : List (ℕ × List A)
  pub pending : List (List A)
  pub counts : List ℕ
  pub results : List (ℕ × List A)

module _ {A : Type 0} where
  unfoldable pub new_count : ValueTracker A → ℕ
  new_count t = length t.items - t.pending

  unfoldable pub push : A → ValueTracker A → ValueTracker A
  push x t = record t { items = x ∷ t.items }

  unfoldable pub process : ℕ → ValueTracker A → Option (ValueTracker A × List A)
  process count t =
      if leb (count + t.pending) (length t.items)
      then some
          (record t { pending = t.pending + count }, take count (drop t.pending (reverse t.items)))
      else none

  unfoldable pub finish : ℕ → ValueTracker A → Option (ValueTracker A)
  finish count t =
      if leb count t.pending
      then (if leb count (length t.items)
          then some (record {
            items = take (length t.items - count) t.items;
            pending = t.pending - count;
          })
          else none)
      else none

  -- `ValueTracker::new` and `work_queue`
  unfoldable pub new : WorkQueue A
  new = record {
    values = record { items = []; pending = 0 };
    incoming = [];
    pending = [];
    counts = [];
    results = [];
  }

  -- `WorkQueueIn::push`
  unfoldable pub enqueue : A → WorkQueue A → WorkQueue A
  unfolding push
  enqueue x q = record q { values = push x q.values }

  abbrev pub hand_over :
      Sent
      → ℕ
      → Option (ValueTracker A × List A)
      → WorkQueue A
      → Option (WorkQueue A × Result (Unit {0}))
  hand_over sent count none q = none
  hand_over accepted count (some (t, vs)) q =
      some (record q { values = t; incoming = q.incoming ++ (count, vs) ∷ [] }, ok tt)
  hand_over closed count (some (t, vs)) q = some (record q { values = t }, err table_closed)
  hand_over full count (some (t, vs)) q = some (record q { values = t }, err table_queue_full)

  -- `WorkQueueIn::try_process`
  unfoldable pub try_process : Sent → WorkQueue A → Option (WorkQueue A × Result (Unit {0}))
  unfolding new_count process
  try_process sent q =
      let count = new_count q.values in hand_over sent count (process count q.values) q

  -- The arm of `process_queue` on a received job; with no job there the state stays.
  unfoldable pub receive : WorkQueue A → WorkQueue A
  receive q = elim q.incoming [
    | [] ↦ q
    | job ∷ rest ↦ record q {
      incoming = rest;
      pending = q.pending ++ job.1 ∷ [];
      counts = q.counts ++ job.0 ∷ [];
    }
  ]

  -- The arm of `process_queue` on a completed future, which `FuturesOrdered` gives in order.
  unfoldable pub complete : Sent → WorkQueue A → Option (WorkQueue A)
  complete sent q = elim q.pending [
    | [] ↦ some q
    | vs ∷ pending ↦ elim q.counts [
      | [] ↦ none
      | count ∷ counts ↦ elim sent [
        | accepted ↦ some (record q {
          pending = pending;
          counts = counts;
          results = q.results ++ (count, vs) ∷ [];
        })
        | _ ↦ some (record q { pending = pending; counts = counts })
      ]
    ]
  ]

  abbrev pub finished :
      Option (ValueTracker A)
      → List (ℕ × List A)
      → List A
      → WorkQueue A
      → Option (WorkQueue A × List A)
  finished none rest vs q = none
  finished (some t) rest vs q = some (record q { values = t; results = rest }, vs)

  -- `WorkQueueOut::ready` on a received result, with the values of its job; it waits when there is none.
  unfoldable pub ready : WorkQueue A → Option (WorkQueue A × List A)
  unfolding finish
  ready q = elim q.results [
    | [] ↦ some (q, [])
    | r ∷ rest ↦ finished (finish r.0 q.values) rest r.1 q
  ]
