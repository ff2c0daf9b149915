-- ===== src/Examples/Queues.antt =====
-- A work queue with one value.
use ella.Prelude.{ℕ, ◌≡◌, ◌≢◌, none, some, List, [], ◌∷◌, ◌++◌, reverse}
use ella.Prelude.Result.{ok, err, table_queue_full}
use ella.Util.WorkQueue.{WorkQueue, accepted, full, new, enqueue, try_process, complete, ready}
use ella.Util.WorkQueue.Run.{Run, start, pushed, Run-items, Run-no_panic, refused-lost}

abbrev queue : WorkQueue ℕ
queue = enqueue 4 new

one_value : Run {A = ℕ} (4 ∷ []) [] queue
one_value = pushed 4 start

Run-items_example : (rest : List ℕ) × (4 ∷ [] ≡ [] ++ rest) × (queue.values.items ≡ reverse rest)
Run-items_example = Run-items (4 ∷ []) [] queue one_value

Run-no_panic_example :
    (try_process full queue ≢ none) × (complete full queue ≢ none) × (ready queue ≢ none)
Run-no_panic_example = Run-no_panic (4 ∷ []) [] queue full one_value

refused-lost_example :
    (q : WorkQueue ℕ) × (try_process full queue ≡ some (q, err table_queue_full))
    × (q.incoming ≡ queue.incoming)
    × (try_process accepted q
        ≡ some (record q { incoming = queue.incoming ++ (0, []) ∷ [] }, ok tt))
refused-lost_example = refused-lost (4 ∷ []) [] queue one_value
