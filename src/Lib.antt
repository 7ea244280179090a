-- ===== src/Lib.antt =====
-- The publish carousel: a Go service that publishes the native content of a newsroom's database
-- again and again, in cycles. A scheduler owns the cycles. A whole-collection cycle reads the
-- UUIDs of a collection into memory and publishes them one by one at the pace of its throttle;
-- a scaling-window cycle publishes what changed in a window of time. A cycle's metadata counts
-- what is done and is kept in S3, so that a cycle can go on where it was. Paths below are from
-- the repository's root.
--
-- - Prelude: tests, lists, texts, Go's `int` and the results of fallible code. An `int` is its
--   64-bit pattern, a natural number below 2 ^ 64, and wraps there; durations and times are
--   integers of nanoseconds (Prelude.Int).
-- - S3, Tasks: the interfaces of s3/service.go and tasks/publish_task.go. S3.Service is the
--   service of s3/service.go over the S3 client, and Tasks.PublishTask the task of
--   tasks/publish_task.go, with the filter of image/filter.go.
-- - Native.Content: the native document (native/mongo.go).
-- - Native.Collection, InMemory, Load, Persist: native/in_memory_collection.go and
--   native/s3.go. `load_into_memory` is `LoadIntoMemory`, its loop `load_loop` on one
--   `load_step` per round; `next_in_memory` is `Next`; `read_from_s3` and `persist_in_s3` are
--   the list kept in S3.
-- - Native.Cursor, Batch, Builder: native/native_uuid_collection.go. `next_cursor` is `Next`
--   over the driver's iterator, `compute_batchsize` is `computeBatchsize`,
--   `new_native_uuid_collection` is `NewNativeUUIDCollection`.
-- - Scheduler.Metadata, Publish, Cycle: scheduler/cycle.go. `publish_collection` is
--   `publishCollection`, with `update_progress`; `start`, `stop` and `reset` of
--   Scheduler.Cycle keep a register of the goroutines whose contexts are not cancelled.
-- - Scheduler.WholeCollection, TimeWindow: throttled_whole_collection_cycle.go,
--   time_windowed_cycle.go and scaling_window_cycle.go of scheduler/, the goroutines of the
--   two kinds of cycle.
-- - Scheduler.Interleaved: the goroutine of a whole-collection cycle beside `Stop` and `Reset`
--   of scheduler/cycle.go, as a step relation on the metadata that they share.
--   Scheduler.Overlapping: `Start` of scheduler/scheduler.go beside `Shutdown`, with the lock
--   and the channel of the checkpoint handler.
-- - Scheduler.Throttle, States, Duration: scheduler/throttle.go and scheduler/cycle_states.go.
-- - Scheduler.Config: scheduler/config.go, with `NewCycle` and `TransformToConfig`.
--   Scheduler.LoadFile is `LoadSchedulerFromFile`.
-- - Scheduler.Mode, Control, Control.Toggle: scheduler/scheduler.go, the scheduler's states,
--   its map of cycles, its start, shutdown and toggles. Control.Abstract is the scheduler
--   without its map, which the calls implement. Control.Checkpoint is the goroutine of
--   scheduler/checkpoint_handler.go. Scheduler.MetadataStore is scheduler/metadata_rw.go, the
--   metadata kept in S3.
-- - Resources.Cycles: the handlers of resources/cycles.go, as operations on the scheduler.
--   Readers has those that answer with cycles and throttles.
-- - Resources.Control: the handlers of resources/scheduler.go and resources/api.go.
--   Resources.Health: the checks of resources/healthchecks.go; Resources.Health.Channel has
--   the goroutines of the check of the cluster and their channel, one move at a time;
--   Resources.Health.Gtg has the good-to-go endpoint.
-- - Cluster: the services of cluster/service.go (Cluster.Service), the environments and the
--   service of cluster/file (Cluster.Environments, Cluster.External), and those of
--   cluster/etcd (Cluster.Etcd).
-- - Watcher: file/watcher.go. `watch` is `Watch` for a number of ticks. Watcher.Etcd:
--   etcd/watcher.go.
-- - Blacklist: blacklist/blacklist.go.
-- - Native.Database: the sessions, queries and reader of native/mongo.go, native/query.go and
--   native/native_reader.go.
-- - Start: main.go. `configure` is what can stop the program, `start_up` is from the toggles
--   to the start of the scheduler, `on_signal` is the goroutine of `shutdown`; Start.Serve is
--   `serve`: the routes of the HTTP server, the toggles and the signal, as events that reach
--   the scheduler in any order; `CheckMongoURLs` of native/mongo.go stands with them.
--   Start.Flags has the flags and the settings that are read from them, Start.Action the whole
--   action, Start.Watching the goroutines that watch the files of configurations, one tick a
--   step, among the requests, and Start.Peers those that watch the keys of etcd.
-- - Cms.Notifier: `NewNotifier` and `Notify` of cms/cms_notifier.go.
-- - Examples: runs of the code on concrete data, one for each result with conditions.
--
-- The world. What a cycle does not own (the database, S3, the clock, the context, the limiter,
-- the blacklist and the task) is a parameter over a type `W` of worlds: a call takes a world
-- and gives the next. The digest of a cycle's ID, the text of a UUID, JSON and the texts of
-- durations are parameters as well. A theorem that relies on what such code does says so in its
-- conditions.
--
-- Loops. The loops that wait for the outside take fuel, one unit for a round, and give none
-- where it runs out. Over a list of UUIDs one more than its length is enough, as the results
-- show; the endless loop of a cycle is run for a number of rounds. A nil pointer or a failed
-- type assertion is the result `panic` (or `crashed`, `crash`); the only other use of `panic`
-- is in `shutdown`, for a send on a channel that nobody reads.
--
-- Locks and maps. Scheduler.Control and Start.Serve let the operations of the scheduler follow
-- one another, with an interval of the checkpoints above 0; `start_with_interval` has the other
-- intervals. `AddCycle` and `DeleteCycle` hold their lock alone and each toggle holds its own,
-- but `Start` and `Shutdown` only share a read lock: how they overlap is in
-- Scheduler.Overlapping. A map is an association list, visited in its order; the results hold
-- for every order. In `publish_collection` the metadata is the loop's own; the writes of a
-- `Stop` or a `Reset` between its accesses are those of Scheduler.Interleaved.
--
-- Goroutines. The health check of the cluster is a state with the goroutines that have not
-- sent, the buffer of the channel and the receiver; a list of moves is one interleaving, and
-- what is proved holds of every list. A move that cannot be made is blocked, and a send or a
-- close on a closed channel panics.
--
-- Progress is a fraction before it is rounded to a float. Logging, and the JSON of the
-- metadata, are not modelled. Not modelled: the hash of native/hashing.go, which is a call of
-- the standard library, and the texts of the health endpoint.
pub mod Prelude
pub mod S3
pub mod Native
pub mod Tasks
pub mod Scheduler
pub mod Resources
pub mod Cms
pub mod Cluster
pub mod Watcher
pub mod Blacklist
pub mod Start
mod Examples
