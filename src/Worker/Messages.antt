-- ===== src/Worker/Messages.antt =====
-- src/worker/mod.rs: what the messages that a worker takes do to its state.
use cl_async.Base.{
  ℕ, ◌+◌, ◌≤◌, ◌≡◌, refl, ap, ◌∙◌, inl, inr, Bool, true, false, ◌||◌, if◌then◌else◌, Option, none,
  some, Option-cases, List, [], ◌∷◌, ◌++◌, length, length-append, arith, Result, ok, err,
}
use cl_async.Base.Int.{ℤ}
use cl_async.Io.Context.{IoContext}
use cl_async.Task.Executor.{LocalTask, spawn, wake_task}
use cl_async.Events.Registry.{Registry, EventPollerRegistryError}
use cl_async.Pool.{WorkerState}
use cl_async.Worker.{
  Parts, Bits, Message, Worker, Submission, Tasks, emit, set_state, spawn_each, backed_up,
  prepare_io_submission, repaired, repair_of, repair, shared_arm, submits, is_kill, arm, receive,
}

module _ (P : Parts) (B : Bits) where
  abbrev pub is_shutdown : Message P B → Bool
  is_shutdown Message.shutdown = true
  is_shutdown other = false

  abbrev pub has_kill : List (Message P B) → Bool
  has_kill [] = false
  has_kill (m ∷ ms) = is_kill P B m || has_kill ms

  abbrev pub has_shutdown : List (Message P B) → Bool
  has_shutdown [] = false
  has_shutdown (m ∷ ms) = is_shutdown m || has_shutdown ms

  -- The tasks that a message can make ready.
  abbrev pub arriving : Message P B → ℕ
  arriving (Message.task_spawner task) = 1
  arriving (Message.spawn_task task) = 1
  arriving (Message.spawn_tasks tasks) = length tasks
  arriving (Message.wake_task id) = 1
  arriving other = 0

  abbrev pub arriving_all : List (Message P B) → ℕ
  arriving_all [] = 0
  arriving_all (m ∷ ms) = arriving m + arriving_all ms

  abbrev pub ready_count : Worker P B → ℕ
  ready_count w = length (P.ready.contents w.executor.ready_tasks)

  -- What a message does to the tasks of the executor, and what messages do, one after the other.
  abbrev pub tasks_after : Message P B → Tasks P B → Tasks P B
  tasks_after (Message.task_spawner task) x = spawn P.F P.ready P.running P.wakers task x
  tasks_after (Message.spawn_task task) x = spawn P.F P.ready P.running P.wakers task x
  tasks_after (Message.spawn_tasks tasks) x = spawn_each P B tasks x
  tasks_after (Message.wake_task id) x = wake_task P.F P.ready P.running P.wakers id x
  tasks_after other x = x

  abbrev pub tasks_after_all : List (Message P B) → Tasks P B → Tasks P B
  tasks_after_all [] x = x
  tasks_after_all (m ∷ ms) x = tasks_after_all ms (tasks_after m x)

  -- What preparing a submission and repairing the channel leave alone.
  IsKept : Worker P B → Worker P B → Type 0
  IsKept w v = (v.state ≡ w.state) × (v.executor ≡ w.executor) × (v.world ≡ w.world)

  ready_count-same : (w v : Worker P B) → v.executor ≡ w.executor → ready_count v ≡ ready_count w
  ready_count-same w v e = ap (λ x. length (P.ready.contents x.ready_tasks)) e

  backed_up-IsKept :
      (r : Option (Submission P B) × IoContext P.T P.R P.slots) (w : Worker P B)
      → IsKept w (backed_up P B r w)
  unfolding backed_up IsKept
  backed_up-IsKept (none, c) w = (refl, refl, refl)
  backed_up-IsKept (some s, c) w = (refl, refl, refl)

  repaired-IsKept :
      (fd : ℤ) (r : Result ℕ EventPollerRegistryError × Registry P.E P.fds) (w : Worker P B)
      → IsKept w (repaired P B fd r w)
  unfolding repaired emit IsKept
  repaired-IsKept fd (err e, r) w = (refl, refl, refl)
  repaired-IsKept fd (ok key, r) w = (refl, refl, refl)

  repair_of-IsKept : (r : Option ℤ × P.E.Kernel) (w : Worker P B) → IsKept w (repair_of P B r w)
  unfolding repair_of IsKept
  repair_of-IsKept (none, kernel) w = (refl, refl, refl)
  repair_of-IsKept (some fd, kernel) w = repaired-IsKept fd _ w

  arm-state :
      (m : Message P B) (w : Worker P B)
      → (arm P B m w).state ≡ (if is_shutdown m then WorkerState.stopping else w.state)
  unfolding arm shared_arm set_state emit repair prepare_io_submission IsKept
  arm-state (Message.task_spawner task) w = refl
  arm-state (Message.spawn_task task) w = refl
  arm-state (Message.spawn_tasks tasks) w = refl
  arm-state (Message.wake_task id) w = refl
  arm-state (Message.submit_io s) w = (backed_up-IsKept _ w).0
  arm-state (Message.go_on waker) w = refl
  arm-state Message.repair_message_channel w = (repair_of-IsKept _ w).0
  arm-state Message.shutdown w = refl
  arm-state Message.kill w = refl

  arm-tasks :
      (m : Message P B) (w : Worker P B)
      → ((arm P B m w).executor ≡ tasks_after m w.executor) × ((arm P B m w).world ≡ w.world)
  unfolding arm shared_arm set_state emit repair prepare_io_submission IsKept
  arm-tasks (Message.task_spawner task) w = (refl, refl)
  arm-tasks (Message.spawn_task task) w = (refl, refl)
  arm-tasks (Message.spawn_tasks tasks) w = (refl, refl)
  arm-tasks (Message.wake_task id) w = (refl, refl)
  arm-tasks (Message.submit_io s) w =
      let (state, tasks, world) = backed_up-IsKept _ w in (tasks, world)
  arm-tasks (Message.go_on waker) w = (refl, refl)
  arm-tasks Message.repair_message_channel w =
      let (state, tasks, world) = repair_of-IsKept _ w in (tasks, world)
  arm-tasks Message.shutdown w = (refl, refl)
  arm-tasks Message.kill w = (refl, refl)

  contents_length-push :
      (q : P.ready.Queue) (task : LocalTask P.F)
      → length (P.ready.contents (P.ready.push q task)) ≡ length (P.ready.contents q) + 1
  contents_length-push q task =
      ap length (P.ready.contents-push q task) ∙ length-append (P.ready.contents q) (task ∷ [])

  spawn_each-ready :
      (tasks : List (LocalTask P.F)) (x : Tasks P B)
      → length (P.ready.contents (spawn_each P B tasks x).ready_tasks)
        ≡ length (P.ready.contents x.ready_tasks) + length tasks
  unfolding spawn_each spawn
  spawn_each-ready [] x = omega arith
  spawn_each-ready (task ∷ tasks) x =
      spawn_each-ready tasks (spawn P.F P.ready P.running P.wakers task x)
      ∙ omega (arith, contents_length-push x.ready_tasks task)

  wake_task-ready :
      (id : ℕ) (x : Tasks P B)
      → length (P.ready.contents (wake_task P.F P.ready P.running P.wakers id x).ready_tasks)
        ≤ length (P.ready.contents x.ready_tasks) + 1
  unfolding wake_task
  wake_task-ready id x = elim (Option-cases (P.running.get x.running_tasks id)) [
    | inl absent ↦ rw (absent, wake_task) (omega arith)
    | inr (task, waits) ↦
        rw (waits, wake_task) (omega (arith, contents_length-push x.ready_tasks task))
  ]

  pub arm-ready :
      (m : Message P B) (w : Worker P B) → ready_count (arm P B m w) ≤ ready_count w + arriving m
  unfolding arm shared_arm set_state emit repair prepare_io_submission IsKept spawn
  arm-ready (Message.task_spawner task) w =
      omega (arith, contents_length-push w.executor.ready_tasks task)
  arm-ready (Message.spawn_task task) w =
      omega (arith, contents_length-push w.executor.ready_tasks task)
  arm-ready (Message.spawn_tasks tasks) w = omega (arith, spawn_each-ready tasks w.executor)
  arm-ready (Message.wake_task id) w = wake_task-ready id w.executor
  arm-ready (Message.submit_io s) w =
      omega (arith, ready_count-same w (arm P B (Message.submit_io s) w) ((backed_up-IsKept _ w).1))
  arm-ready (Message.go_on waker) w = omega arith
  arm-ready Message.repair_message_channel w = omega (
    arith,
    ready_count-same w (arm P B Message.repair_message_channel w) ((repair_of-IsKept _ w).1),
  )
  arm-ready Message.shutdown w = omega arith
  arm-ready Message.kill w = omega arith

  pub neither : (a b : Bool) → (a || b) ≡ false → (a ≡ false) × (b ≡ false)
  neither false b h = (refl, h)
  neither true b h = cc

  -- Messages without a kill are all taken; a shutdown among them leaves the worker stopping.
  pub receive-next :
      (ms : List (Message P B)) (w : Worker P B) (submit : Bool)
      → has_kill ms ≡ false
      → (v : Worker P B) × (s : Bool) × ((more : List (Message P B))
          → receive P B (ms ++ more) w submit ≡ receive P B more v s)
        × (v.state ≡ (if has_shutdown ms then WorkerState.stopping else w.state))
        × (ready_count v ≤ ready_count w + arriving_all ms)
        × (v.executor ≡ tasks_after_all ms w.executor)
        × (v.world ≡ w.world)
  unfolding receive
  receive-next [] w submit h = (w, submit, λ more. refl, refl, omega arith, refl, refl)
  receive-next (m ∷ ms) w submit h =
      let (here, later) = neither (is_kill P B m) (has_kill ms) h in
      let (tasks, world) = arm-tasks m w in
      let (v, s, e, state, count, more_tasks, same) =
        receive-next ms (arm P B m w) (if submits P B m then true else submit) later in
      (
        v,
        s,
        λ more. rw (here, receive) (e more),
        state ∙ last_state (is_shutdown m) (has_shutdown ms) _ w.state (arm-state m w),
        omega (arith, count, arm-ready m w),
        more_tasks ∙ ap (tasks_after_all ms) tasks,
        same ∙ world,
      )
    where
      last_state :
          (a b : Bool) (s t : WorkerState)
          → s ≡ (if a then WorkerState.stopping else t)
          → (if b then WorkerState.stopping else s) ≡ (if a || b then WorkerState.stopping else t)
      last_state a true s t e = ground arith
      last_state a false s t e = ground arith
