-- ===== src/Lib.antt =====
-- A verification library for cl_async, an asynchronous runtime over io_uring and epoll.
--
-- The runtime is a pool of workers, each a thread with an executor for its tasks, an io_uring context
-- for its operations and a poller for its event sources. Tasks share locks that are built on atomics;
-- a wake is a message to the worker that owns the task. Each part is modelled in the files of its name:
--
-- Sync/Semaphore.antt and the files below it: src/sync/semaphore.rs. The loop of `sem_fut` is a
--   program counter, and `sem_step` makes one atomic access, so that agents interleave between any
--   two accesses (Sync/Semaphore/System.antt). `sem_fut` itself, without interference, is in Alone,
--   on fuel: four accesses are always enough. `add_permits` as a whole is in Waking. Fit, Account,
--   Totals, Polite and Holders count permits.
-- Sync/RwLock.antt: src/sync/rw_lock.rs, over the semaphore.
-- Sync/Mutex.antt and the files below it: src/sync/mutex.rs, one access at a time.
-- OsError.antt: src/os_error.rs. Notifications/Signal.antt: src/notifications/signal.rs.
-- Io/Completion.antt: src/io/completion.rs, src/io/entry.rs and `IoOperation::complete`.
-- Io/Context.antt: src/io/context.rs, src/io/submission.rs, and the loop of src/worker/mod.rs over the
--   submissions that wait for room in the ring, which is a parameter.
-- Io/CompletionQueue.antt: src/io/completion_queue.rs. Io/TlsAlert.antt: the alerts of
--   src/io/message.rs.
-- Io/ControlMessage.antt and the files below it: the control messages of src/io/message.rs. Abi is what
--   libc is relied on for; Socket, IpV4, IpV6 and Tls prepare and parse the messages of a level, Level
--   any message, and Framing a buffer of them, over the interface `ControlMessage`, which RoundTrip
--   fills. The loop over a buffer is on fuel: one round for each byte is enough, if no length in it wraps.
-- Io/Future.antt: the future of an operation in src/io/operation/future.rs, with
--   src/io/submission_queue.rs and the handle of a submission in src/worker/mod.rs.
-- Io/Recovery.antt and the files below it: what is recovered from an operation or an error, in src/io/mod.rs,
--   src/io/failure.rs and src/io/operation; Ways has the ways in which a read into the client's buffers fails.
-- Io/TrafficClass.antt: `IpV6TrafficClass` of src/io/message.rs.
-- Io/Buffers.antt and the files below it: src/io/buffers.rs, over a parameter for the crate bytes. Input
--   is what the kernel reads from, Output what it writes into, Messages the buffers of a recvmsg. The
--   loop over the chunks of a buffer is on fuel: one round for each byte is enough.
-- Task/Executor.antt: src/task/executor.rs. A pass over the ready tasks is on fuel: one more than
--   there are ready tasks is enough.
-- Events/Queue.antt: src/events/queue, with the future that waits for an event.
-- Events/Registry.antt: src/events/poller/registry.rs and src/key.rs; `epoll_ctl` is a parameter.
-- Pool.antt: the choice of a worker in src/pool.rs, and src/worker/state.rs.
-- Worker.antt and the files below it: src/worker/mod.rs, which composes the parts above. The arms of the
--   messages are in Worker, the turns in Worker/Loop.antt; the running of the tasks is on fuel, and more
--   than the ready tasks and those that the messages name is enough.
-- Net/Address.antt: src/net/address.rs. Text has the operations of `str` on lists of characters;
--   Compress, Parse and Display are the text of an address; Resolve is `v6`, the resolution of host names
--   and `TryFrom<&str>`, with `getaddrinfo` a parameter. The brackets round an address come off on fuel,
--   the length of the text, since each pair takes two characters.
-- Timing/Sleep.antt: src/timing/futures/sleep.rs, with the handler of the timer as an event of its own.
-- Events/Channel.antt: src/events/channel.rs, over an `eventfd`; `drain` is on fuel, and more than the number
--   that the channel holds is enough, since a read takes at least 1.
-- Io/Fs: Mode and OpenSettings are src/io/operation/data/open_at.rs, Stats is src/io/fs/stats.rs.
-- Notifications/Reaction.antt: what a worker makes of a signal. Yield.antt: src/yield.rs.
-- Base: the names that the modules share, with two interfaces: Base/Queues.antt for the queues of
--   crossbeam, Base/Dicts.antt for the maps (DashMap, FxHashMap).
-- Examples: each theorem that has a hypothesis or an argument, at a concrete input.
--
-- A `usize` has 64 bits, and the one place where the semaphore could exceed it wraps. The memory
-- orderings of the atomics are read as sequentially consistent, a `compare_exchange` does not fail
-- by itself, and a call of the maps or of the queues is one step. Values guarded by a lock, system
-- calls, io_uring, logging and the texts of errors are not modelled. Neither are
-- the creation of a worker, the senders of its messages, the wait on epoll, and the futures of
-- files, directories, streams and listeners.
pub mod Base
pub mod Events
pub mod Examples
pub mod Io
pub mod Net
pub mod Notifications
pub mod OsError
pub mod Pool
pub mod Sync
pub mod Task
pub mod Timing
pub mod Worker
pub mod Yield
