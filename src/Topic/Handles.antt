-- ===== src/Topic/Handles.antt =====
-- What the handles of workers make of how a worker ended: `ShardManager::write` and `close` of
-- ella-engine/src/table/topic/shard.rs, and `JobHandle::send` and `finish` of
-- ella-engine/src/table/topic/shard/writer.rs.
use ella.Prelude.{Bool, true, false, Text, codes, Option, none, some}
use ella.Prelude.Result.{Result, ok, err, table_closed, table_queue_full, worker}

-- How the task of a worker ended: by a panic, or with a result.
pub data WorkerEnd : Type 0 where
  by_panic : Text → WorkerEnd
  returned : Result (Unit {0}) → WorkerEnd

pub data WorkerHandle : Type 0 where
  running : WorkerHandle
  is_finished : WorkerEnd → WorkerHandle

-- `ShardManager::write`, by whether the channel took the job.
unfoldable pub write : Bool → Option WorkerHandle → Option WorkerHandle × Result (Unit {0})
write true handle = (handle, ok tt)
write false none = (none, err table_closed)
write false (some running) = (some running, err table_closed)
write false (some (is_finished (by_panic p))) = (none, err (worker (codes "shard_writer") p))
write false (some (is_finished (returned (ok _)))) = (none, err table_closed)
write false (some (is_finished (returned (err e)))) = (none, err e)

-- `ShardManager::close`, with the end that its wait for the worker gives
unfoldable pub close : WorkerEnd → Option WorkerHandle → Option WorkerHandle × Result (Unit {0})
close ending none = (none, ok tt)
close (by_panic p) (some handle) = (none, ok tt)
close (returned r) (some handle) = (none, r)

-- `JobHandle::send`, by whether the channel took the job; `none` is `unreachable!`.
unfoldable pub send : Bool → Option WorkerHandle → Option (Option WorkerHandle × Result (Unit {0}))
send true handle = some (handle, ok tt)
send false none = some (none, err table_closed)
send false (some running) = some (some running, err table_queue_full)
send false (some (is_finished (by_panic p))) =
    some (none, err (worker (codes "single_shard_writer") p))
send false (some (is_finished (returned (err e)))) = some (none, err e)
send false (some (is_finished (returned (ok _)))) = none

-- `JobHandle::finish`, with the end that its wait for the worker gives
unfoldable pub finish : WorkerEnd → Option WorkerHandle → Result (Unit {0})
finish ending none = ok tt
finish (by_panic p) (some handle) = err (worker (codes "single_shard_worker") p)
finish (returned r) (some handle) = r
