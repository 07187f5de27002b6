-- ===== src/Worker/Loop.antt =====
-- src/worker/mod.rs: `worker_loop`, and what the thread does after it.
--
-- What the kernel and the other threads contribute is the input of each turn: what the poll gives, with
-- the signal that each read of the signalfd gives, and the messages that are received. A pass over the
-- ready tasks is on fuel, as in Task/Executor.antt.
use cl_async.Base.{
  ℕ, zero, suc, ◌==◌, Bool, true, false, if◌then◌else◌, Option, none, some, List, [], ◌∷◌, ◌++◌,
  map,
}
use cl_async.Base.Int.{ℤ}
use cl_async.Io.Context.{resubmit, complete_all}
use cl_async.Task.Executor.{run_ready_tasks}
use cl_async.Events.Queue.{Event, push_event, wake_key, broadcast_and_wake}
use cl_async.Notifications.Signal.{LibcSignal, from}
use cl_async.Notifications.Reaction.{Notification, notification_of, Reaction, react}
use cl_async.Pool.{WorkerState}
use cl_async.Worker.{
  Parts, Bits, Effect, Message, Worker, Flow, emit, set_state, receive, receive_stopping,
}

-- What `poll_events` gives: an interrupt, or events with what a read of the signalfd gives for each,
-- `none` if it fails. After any other error there are no events.
pub data Polled : Type 0 where
  interrupted : Polled
  events : List (Event × Option ℤ) → Polled

module _ (P : Parts) (B : Bits) (S : LibcSignal) (io_channel_key sfd_key fuel : ℕ) where
  -- `should_recv`, `should_complete_io` and `queues_to_wake`.
  pub record Marks : Type 0 where
    pub should_recv : Bool
    pub should_complete_io : Bool
    pub queues_to_wake : List ℕ

  abbrev wakes_all : List ℕ → List Effect
  wakes_all wakers = map Effect.wakes wakers

  -- `queue_registry.broadcast_and_wake`.
  unfoldable pub broadcast : ℕ → Worker P B → Worker P B
  unfolding emit
  broadcast bits w =
      let (queues, called) =
        broadcast_and_wake P.queues bits (P.keys w.queue_registry) w.queue_registry in
      emit P B (wakes_all called) (record w { queue_registry = queues })

  -- The match on the notification; `true` for a return.
  unfoldable pub reacted : Reaction → Worker P B → Worker P B × Bool
  unfolding broadcast set_state emit
  reacted Reaction.stops w = (broadcast B.shutdown (set_state P B WorkerState.stopping w), false)
  reacted Reaction.ends w = (w, true)
  reacted Reaction.ignores w = (w, false)
  reacted (Reaction.broadcasts n) w = (emit P B (Effect.notifies n ∷ []) w, false)

  -- The end of the body of the loop over the events.
  unfoldable pub pushed_event : Event → Worker P B → Marks → Worker P B × Marks
  pushed_event event w marks =
      let (queues, answer) = push_event P.queues event w.queue_registry in
      (
        record w { queue_registry = queues },
        record marks {
          queues_to_wake =
              if answer then marks.queues_to_wake ++ event.key ∷ [] else marks.queues_to_wake;
        },
      )

  -- The loop over the events; `true` for a return from `worker_loop`.
  unfoldable pub each_event :
      List (Event × Option ℤ) → Worker P B → Marks → Worker P B × Marks × Bool
  unfolding reacted pushed_event
  each_event [] w marks = (w, marks, false)
  each_event ((event, siginfo) ∷ rest) w marks =
      if event.key == w.message_channel_key
      then each_event rest w (record marks { should_recv = true })
      else if event.key == io_channel_key
      then each_event rest w (record marks { should_complete_io = true })
      else if event.key == sfd_key
      then elim siginfo [
        | none ↦ each_event rest w marks
        | some signal ↦
            let (w1, ended) = reacted (react (notification_of (from S signal))) w in
            let (w2, marks2) = pushed_event event w1 marks in
            let later = each_event rest w2 marks2 in if ended then (w1, marks, true) else later
      ]
      else let (w1, marks1) = pushed_event event w marks in each_event rest w1 marks1

  -- `while let Some(key) = queues_to_wake.pop_front()`.
  unfoldable pub wake_each : List ℕ → Worker P B → Worker P B
  unfolding emit
  wake_each [] w = w
  wake_each (key ∷ keys) w =
      let (queues, called) = wake_key P.queues key w.queue_registry in
      wake_each keys (emit P B (wakes_all called) (record w { queue_registry = queues }))

  -- `if should_complete_io`, with `should_submit_io`.
  unfoldable pub complete_io : Bool → Worker P B → Worker P B × Bool
  complete_io false w = (w, false)
  complete_io true w =
      let (waiting, c, submit) =
        resubmit P.T P.R P.slots w.waiting_submissions
          (complete_all P.T P.R P.slots P.libc w.io_context) false in
      (record w { waiting_submissions = waiting; io_context = c }, submit)

  -- `if should_submit_io`.
  unfoldable pub submit_io_entries : Bool → Worker P B → Worker P B
  submit_io_entries false w = w
  submit_io_entries true w = record w {
    io_context = record w.io_context { inner = P.submit w.io_context.inner };
  }

  abbrev pub has_ready : P.ready.Queue → Bool
  has_ready q = elim (P.ready.pop q) [ none ↦ false | some r ↦ true ]

  -- `while executor.has_ready_tasks()`, with the passes that are left.
  unfoldable pub run_tasks : ℕ → Worker P B → Option (Worker P B)
  run_tasks zero w = if has_ready w.executor.ready_tasks then none else some w
  run_tasks (suc left) w =
      if has_ready w.executor.ready_tasks
      then elim (run_ready_tasks P.F P.ready P.running P.wakers fuel (w.executor, w.world)) [
        | none ↦ none
        | some s ↦ run_tasks left (record w { executor = s.0; world = s.1 })
      ]
      else some w

  -- How a turn ends: with another turn, with the loop after it, or with a return.
  pub data Turn : Type 0 where
    again : Worker P B → Turn
    stops : Worker P B → Turn
    returned : Worker P B → Turn

  abbrev is_stopping : WorkerState → Bool
  is_stopping WorkerState.stopping = true
  is_stopping other = false

  -- The end of the turn, on what is left after the tasks ran.
  unfoldable pub stop_or_go : Worker P B → Turn
  unfolding broadcast emit
  stop_or_go w =
      if is_stopping w.state
      then stops (emit P B (Effect.notifies Notification.shutdown ∷ []) (broadcast B.shutdown w))
      else again w

  unfoldable pub ran : Option (Worker P B) → Option Turn
  unfolding stop_or_go
  ran none = none
  ran (some w) = some (stop_or_go w)

  -- From the messages on.
  unfoldable pub received : Flow P B × Bool → Option Turn
  unfolding ran submit_io_entries run_tasks
  received (Flow.returns w, submit) = some (returned w)
  received (Flow.next w, submit) = ran (run_tasks 1 (submit_io_entries submit w))

  -- From the events on.
  unfoldable pub marked : List (Message P B) → Worker P B × Marks × Bool → Option Turn
  unfolding received wake_each complete_io receive
  marked messages (w, marks, true) = some (returned w)
  marked messages (w, marks, false) =
      let (w1, submit) = complete_io marks.should_complete_io (wake_each marks.queues_to_wake w) in
      received
        (if marks.should_recv then receive P B messages w1 submit else (Flow.next w1, submit))

  -- One turn of the loop.
  unfoldable pub turn : Polled → List (Message P B) → Worker P B → Option Turn
  unfolding marked each_event set_state
  turn interrupted messages w = some (again (set_state P B WorkerState.idle w))
  turn (events evs) messages w = marked messages (
      each_event evs (set_state P B WorkerState.busy w)
        (record { should_recv = false; should_complete_io = false; queues_to_wake = [] }))

  -- `blocking_submit` and `complete` of a turn after the loop; `none` is a wait that never ends.
  unfoldable pub wait_for_io : Worker P B → Option (Worker P B)
  wait_for_io w =
      elim (P.blocking_submit (P.count w.io_context.completion_queue) w.io_context.inner) [
        | none ↦ none
        | some inner ↦ some (record w {
          io_context = complete_all P.T P.R P.slots P.libc (record w.io_context { inner = inner });
        })
      ]

  -- How a turn after the loop ends: with another, or with the end of `worker_loop`.
  pub data Stopping : Type 0 where
    waits : Worker P B → Stopping
    ended : Worker P B → Stopping

  unfoldable pub leave_or_wait : Option (Worker P B) → Option Stopping
  leave_or_wait none = none
  leave_or_wait (some w) =
      if P.is_empty w.executor.running_tasks
      then some (ended (record w { queue_registry = P.queues.empty }))
      else some (waits w)

  -- From the wait on.
  unfoldable pub waited : Option (Worker P B) → Option Stopping
  unfolding leave_or_wait run_tasks
  waited none = none
  waited (some w) = leave_or_wait (run_tasks 1 w)

  unfoldable pub after_messages : Flow P B → Option Stopping
  unfolding waited wait_for_io
  after_messages (Flow.returns w) = some (ended w)
  after_messages (Flow.next w) = waited (wait_for_io w)

  -- One turn after the loop; `none` if its wait never ends, or its tasks run out of fuel.
  unfoldable pub stopping_turn : List (Message P B) → Worker P B → Option Stopping
  unfolding after_messages receive_stopping
  stopping_turn messages w = after_messages (receive_stopping P B messages w)

  -- The thread, after `worker_loop`.
  unfoldable pub thread_end : Worker P B → Worker P B
  unfolding broadcast set_state emit
  thread_end w =
      let told =
        if is_stopping w.state
        then w
        else broadcast B.kill (emit P B (Effect.notifies Notification.kill ∷ []) w) in
      set_state P B WorkerState.stopped told
