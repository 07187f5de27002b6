-- ===== src/Worker.antt =====
-- src/worker/mod.rs: the messages that a worker takes from its channel, and the turn of its loop.
--
-- The parts of other files are composed here: the executor, the io context, the registry of the poller,
-- the queues of events. `Parts` collects their parameters, with what the loop itself asks of the kernel.
-- What the worker does to the rest of the process is listed in `effects`, but for the wakers that a
-- completion calls; failures that are only logged leave no trace. A message that creates a task carries
-- the task that is created.

pub mod Loop
pub mod Messages
pub mod Shutdown
pub mod Turns
pub mod Waiting
use cl_async.Base.{
  ℕ, suc, ◌==◌, Bool, true, false, if◌then◌else◌, Option, none, some, List, [], ◌∷◌, ◌++◌, Result,
  ok, err, Dict, Fifo,
}
use cl_async.Base.Int.{ℤ, pos, negsuc}
use cl_async.OsError.{Libc}
use cl_async.Io.Completion.{Completable}
use cl_async.Io.CompletionQueue.{IoCompletionSlot}
use cl_async.Io.Context.{Ring, IoSubmission, IoContext, prepare_submission}
use cl_async.Task.Executor
use cl_async.Task.Executor.{Futures, LocalTask, Executor}
use cl_async.Events.Queue.{EventQueue, Event, push_event, wake_key, broadcast_and_wake}
use cl_async.Events.Registry.{
  Epoll, Registry, EventPollerRegistryError, register_interest, deregister_interest,
}
use cl_async.Notifications.Reaction.{Notification}
use cl_async.Pool.{WorkerState}

-- `submit` and `blocking_submit` are what entering the ring does to it, for the number of completions to
-- wait for, `none` if that many never come; `count` and `is_empty` are those of the maps, `keys` the order of an iterator, and `eventfd`
-- the descriptor of a new channel, if there is one.
pub record Parts : Type 1 where
  pub T : Completable
  pub R : Ring T
  pub slots : Dict (IoCompletionSlot T)
  pub F : Futures
  pub ready : Fifo (LocalTask F)
  pub running : Dict (LocalTask F)
  pub wakers : Dict ℕ
  pub E : Epoll
  pub fds : Dict ℤ
  pub queues : Dict EventQueue
  pub libc : Libc
  pub submit : R.Inner → R.Inner
  pub blocking_submit : ℕ → R.Inner → Option R.Inner
  pub count : slots.Map → ℕ
  pub is_empty : running.Map → Bool
  pub keys : queues.Map → List ℕ
  pub eventfd : E.Kernel → Option ℤ × E.Kernel

-- What a worker does to the rest of the process.
pub data Effect : Type 0 where
  wakes : ℕ → Effect
  notifies : Notification → Effect
  closes : ℤ → Effect

-- The bits of `InterestType::READ`, `EventType::KILL` and `EventType::SHUTDOWN`.
pub record Bits : Type 0 where
  pub read : ℕ
  pub kill : ℕ
  pub shutdown : ℕ

module _ (P : Parts) (B : Bits) where
  abbrev pub Tasks : Type 0
  Tasks = Executor P.F P.ready P.running P.wakers

  abbrev pub Submission : Type 0
  Submission = IoSubmission P.T P.R P.slots

  pub data Message : Type 0 where
    task_spawner : LocalTask P.F → Message
    spawn_task : LocalTask P.F → Message
    spawn_tasks : List (LocalTask P.F) → Message
    wake_task : ℕ → Message
    submit_io : Submission → Message
    go_on : ℕ → Message
    repair_message_channel : Message
    shutdown : Message
    kill : Message

  -- The variables of `worker_loop`, with the state that the pool reads.
  pub record Worker : Type 0 where
    pub state : WorkerState
    pub executor : Tasks
    pub world : P.F.World
    pub io_context : IoContext P.T P.R P.slots
    pub waiting_submissions : List Submission
    pub registry : Registry P.E P.fds
    pub queue_registry : P.queues.Map
    pub message_channel_key : ℕ
    pub message_fd : ℤ
    pub effects : List Effect

  unfoldable pub emit : List Effect → Worker → Worker
  emit es w = record w { effects = w.effects ++ es }

  unfoldable pub set_state : WorkerState → Worker → Worker
  set_state s w = record w { state = s }

  unfoldable pub spawn_each : List (LocalTask P.F) → Tasks → Tasks
  spawn_each [] x = x
  spawn_each (task ∷ tasks) x =
      spawn_each tasks (Executor.spawn P.F P.ready P.running P.wakers task x)

  -- The end of `prepare_io_submission`.
  unfoldable pub backed_up : Option Submission × IoContext P.T P.R P.slots → Worker → Worker
  backed_up (none, c) w = record w { io_context = c }
  backed_up (some s, c) w = record w {
    io_context = c;
    waiting_submissions = w.waiting_submissions ++ s ∷ [];
  }

  unfoldable pub prepare_io_submission : Submission → Worker → Worker
  unfolding backed_up
  prepare_io_submission s w = backed_up (prepare_submission P.T P.R P.slots s w.io_context) w

  -- `close` of the descriptor that was swapped out.
  unfoldable pub close_old : ℤ → List Effect
  close_old (negsuc n) = []
  close_old (pos n) = Effect.closes (pos n) ∷ []

  -- The registration of the new channel; one that fails drops the channel.
  unfoldable pub repaired :
      ℤ → Result ℕ EventPollerRegistryError × Registry P.E P.fds → Worker → Worker
  unfolding emit close_old
  repaired fd (err e, r) w = emit (Effect.closes fd ∷ []) (record w { registry = r })
  repaired fd (ok new_key, r) w = emit (close_old w.message_fd) (record w {
    registry = (deregister_interest P.E P.fds w.message_channel_key r).1;
    message_channel_key = new_key;
    message_fd = fd;
  })

  unfoldable pub repair_of : Option ℤ × P.E.Kernel → Worker → Worker
  unfolding repaired
  repair_of (none, kernel) w = record w { registry = record w.registry { kernel = kernel } }
  repair_of (some fd, kernel) w =
      repaired fd (register_interest P.E P.fds fd B.read (record w.registry { kernel = kernel })) w

  unfoldable pub repair : Worker → Worker
  unfolding repair_of
  repair w = repair_of (P.eventfd w.registry.kernel) w

  -- Whether a loop over messages goes on, or returns from `worker_loop`.
  pub data Flow : Type 0 where
    next : Worker → Flow
    returns : Worker → Flow

  -- The arms that both loops over messages share.
  unfoldable pub shared_arm : Message → Worker → Worker
  unfolding spawn_each prepare_io_submission emit
  shared_arm (task_spawner task) w = record w {
    executor = Executor.spawn P.F P.ready P.running P.wakers task w.executor;
  }
  shared_arm (spawn_task task) w = record w {
    executor = Executor.spawn P.F P.ready P.running P.wakers task w.executor;
  }
  shared_arm (spawn_tasks tasks) w = record w { executor = spawn_each tasks w.executor }
  shared_arm (wake_task id) w = record w {
    executor = Executor.wake_task P.F P.ready P.running P.wakers id w.executor;
  }
  shared_arm (submit_io s) w = prepare_io_submission s w
  shared_arm (go_on waker) w = emit (Effect.wakes waker ∷ []) w
  shared_arm other w = w

  unfoldable pub submits : Message → Bool
  submits (submit_io s) = true
  submits other = false

  unfoldable pub is_kill : Message → Bool
  is_kill kill = true
  is_kill other = false

  -- The arms of the loop, but for the one that returns.
  unfoldable pub arm : Message → Worker → Worker
  unfolding shared_arm set_state repair
  arm shutdown w = set_state WorkerState.stopping w
  arm repair_message_channel w = repair w
  arm other w = shared_arm other w

  -- `while let Ok(msg) = rx.try_recv()` in the loop, over the messages that it receives, with
  -- `should_submit_io`.
  unfoldable pub receive : List Message → Worker → Bool → Flow × Bool
  unfolding arm submits is_kill
  receive [] w submit = (next w, submit)
  receive (m ∷ ms) w submit =
      let rest = receive ms (arm m w) (if submits m then true else submit) in
      if is_kill m then (returns w, submit) else rest

  -- The same after the loop; a shutdown and a repair are passed over.
  unfoldable pub receive_stopping : List Message → Worker → Flow
  unfolding shared_arm set_state is_kill
  receive_stopping [] w = next w
  receive_stopping (m ∷ ms) w =
      let rest = receive_stopping ms (shared_arm m w) in
      if is_kill m then returns (set_state WorkerState.stopped w) else rest
