-- ===== src/Lib.antt =====
-- A model of ella, a datastore for streams of tensor-valued rows, and what is proved of it.
--
-- The parts and how they interact. A datastore is a tree of catalogs, schemas and tables. Each change
-- of the tree is a transaction that is written to a log; a snapshot is the tree after a prefix of the
-- log, and opening a datastore replays the rest of the log on the newest snapshot. A topic (a table
-- that is written to) keeps its shards in memory and commits a transaction for each change of them.
-- Batches of rows go to the workers of a topic through work queues. Rows and columns are tensors,
-- whose elements are found by shapes, strides and indices.
--
-- Which file models which part:
--   Prelude, External: names of the libraries passed on, texts as lists of code points, `crate::Result`
--     with `EngineError` (ella-common/src/error.rs), `BTreeMap`, and the types of third-party crates,
--     which are parameters of the model.
--   Config: the settings of ella-engine/src/config.rs and ella-engine/src/table/config.rs.
--   Registry.Id, SchemaRef, TableRef, Split: the names of ella-engine/src/registry/id.rs, their
--     printing and parsing (`Display`, `From<&str>`, `resolve`); Registry.Roundtrip has the theorems.
--   Registry.Uuid: the time-ordered UUIDs of the same file (`new_uuid`, `encode_timestamp_millis`,
--     `decode_timestamp_millis`, `generate_from`), over an interface of the uuid crate.
--   Registry.Info: `TopicInfo`, `ViewInfo`, their builders and the sorted vector of shards
--     (ella-engine/src/table/info.rs); `search_shard` stands for `binary_search_by_key`, which gives
--     the same answer on a sorted vector.
--   Registry.Transaction: ella-engine/src/registry/transactions.rs.
--   Registry.Snapshot: ella-engine/src/registry/snapshot.rs. A method that returns `&mut` is a function
--     that takes what is done through the reference; `apply` has the ten handlers, `commit`,
--     `commit_one` and `commit_many` are those of the code.
--   Registry.LogApi: what the writers rely on of `TransactionLog`
--     (ella-engine/src/registry/transaction_log.rs), as a record of operations and laws.
--   Registry.TransactionLog: `commit` and `load_transactions` of that file over a store of one file for
--     each transaction; `transaction_log` fills the interface.
--     TransactionLog.Snapshots: the files of snapshots (`create`, `create_snapshot`, `load_snapshot`,
--     `load_config`), over a store that also holds those.
--   Topic.ShardSet: `ShardSet` and `ShardManager::delete_all` of ella-engine/src/table/topic/shard.rs
--     over that interface. `Agrees` relates the shards in memory to those of the replayed log.
--   Topic.Worker: `compact_shards` of ella-engine/src/table/topic/shard/compact.rs on that set; the steps
--     on Parquet files are parameters.
--   Topic.Writer: `handle_write` of the worker that writes shards and the run of a single writer
--     (ella-engine/src/table/topic/shard/writer.rs), over the same set; Writer.Run and Writer.Handle have
--     the theorems. Topic.Handles: what `write`, `send`, `close` and `finish` make of how a worker ended.
--   Topic.Channel: the publishers, subscribers and streams of ella-engine/src/table/topic/channel.rs; the
--     steps of publishers in any order are `Step`, and tokio's channel and `Notify` stay outside.
--   Topic.Buffer: the worker of ella-engine/src/table/topic/rw.rs over two work queues; `BufferRun` has
--     every interleaving of its arms with those of the queues. Buffer.Calls has its calls of
--     `ShardManager::write`, whose answers are arguments.
--   Topic.Plan: the children and the stream of `TopicExec` (ella-engine/src/table/topic.rs); `drain` polls
--     the stream until its end.
--   Engine.Outcome, Table, World: how a method of the engine ends (a value, an error, a panic, or a wait
--     that never ends), the tables of ella-engine/src/table.rs, table/topic.rs and table/view.rs, and
--     the open datastore; `Services` has what its methods call that is not modelled: the close of a
--     topic's buffer and worker, the resolving of a plan, the source of ids.
--   Engine.Schema, Catalog, Cluster, State: the methods of ella-engine/src/schema.rs, catalog.rs,
--     cluster.rs and engine/state.rs that change the tree in memory and commit transactions.
--     Engine.Load: the `load` functions and `EllaState::restore`. `Agrees` relates the tree in memory to
--     that of the replayed log; Engine.Agrees, Lookup, Loaded and Drop have the theorems.
--   Prelude.DashMap: the concurrent map that holds the tree, as a list of entries; its iteration order
--     is that of the list, and a wait for a lock that the caller holds is an outcome of its own.
--   Util.WorkQueue: ella-engine/src/util/work_queue.rs; `Run` has every interleaving of the calls at
--     the two ends and of the arms of `process_queue`.
--   Shape: ella-common/src/shape.rs, shape/iter.rs and shape/index.rs over lists of numbers.
--   Rows: formats of rows and the format `Row` of rows with a time (ella-common/src/row.rs, row/format.rs),
--     the format of rows of one value (row/scalar.rs) in Rows.Scalar, and times as elements of columns
--     (ella-common/src/tensor_value.rs, time.rs) in Rows.Times.
--   Tensor.Mask: `MaskData` of ella-tensor/src/mask/data.rs over an interface of arrow's null buffers,
--     with the scans of windows in Mask.Count and Mask.Window, and `ValidityIter` of
--     ella-tensor/src/mask/iter.rs in Mask.Iter.
--   Tensor.Slice: the slice of an axis, `do_slice`, and the conversions from ranges of
--     ella-tensor/src/slice.rs; Slice.Elements has the elements that a slice leads to.
--   Tensor.View: `Tensor` and `TensorData` (ella-tensor/src/tensor.rs, tensor/data.rs) as views of an array,
--     and the operations that make a view of a view (ops/shape.rs, ops/slice.rs, ops/index.rs).
--   Tensor.Iter: the iterators of ella-tensor/src/tensor/iter.rs, the constructors (ops/constructors.rs),
--     `to_standard_layout` and `reshape`, and the element-wise operations of ella-tensor/src/ops.rs.
--     Tensor.Compare: the comparisons of ella-tensor/src/ops/cmp.rs. Tensor.Combine: `concat` and `stack`
--     of ella-tensor/src/ops/combine.rs; its `search` stands for `binary_search`, which gives the same
--     answer on sizes that rise strictly.
--   Examples: runs of the model at concrete inputs.
--
-- Bounds and fuel. The loops of the code are structural recursion on a list or on a count. Fuel
-- stands only in `collect` of Tensor.Mask.Iter, which calls an iterator until it ends: as many calls
-- as the window has places are enough; and in `take_items` of Tensor.Iter, which `items` calls with
-- the number of elements that the iterator says are left; in `take_combined` of Tensor.Combine,
-- likewise; and in `drain` of Topic.Plan, where more polls than the children answer before their
-- ends are enough. Fresh ids, the clock and random bytes are arguments. The counter of UUIDs wraps
-- at 2 ^ 16 and time stamps at 2 ^ 48, and the count of publishers at 2 ^ 64. The sizes, offsets and
-- strides of Shape have no bound in the model, as those of an array in memory are below 2 ^ 63;
-- those of Tensor.View are 64-bit words that wrap, as in a build without debug assertions. A panic
-- of the debug build is `none`, and in Engine `panicked`; in Topic.Writer the panic of a
-- writer's task is the error that `JobHandle::finish` makes of it.
--
-- Not modelled: Arrow, Parquet and datafusion calls (schemas and plans are passed on unread), the
-- network layers of ella-server, the command line and the Python bindings, metrics; of the engine,
-- the creation of the root file, the sinks of a topic and the scans that make its plans, and the
-- loops that wait for several events at once, whose arms are modelled; of ella-tensor, masked
-- operations, slices of several axes at once and the kernels of arithmetic.
pub mod Prelude
pub mod External
pub mod Config
pub mod Registry
pub mod Topic
pub mod Engine
pub mod Shape
pub mod Tensor
pub mod Rows
pub mod Util
pub mod Examples
