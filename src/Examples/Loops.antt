-- ===== src/Examples/Loops.antt =====
-- Runs of the loop of src/worker/mod.rs, for a worker whose ring has room for one submission.
use cl_async.Base.{
  Option, none, ℕ, ◌≡◌, refl, Bool, false, none, some, List, [], ◌∷◌, ◌++◌, function_dict, arith,
}
use cl_async.Base.Int.{ℤ, pos}
use cl_async.Events.Queue.{EventQueue, Event}
use cl_async.Notifications.Reaction.{Notification}
use cl_async.Pool.{WorkerState}
use cl_async.Worker.{Parts, Bits, Effect, Message, Worker, Flow, is_kill, receive}
use cl_async.Worker.Loop.{Turn, Polled, turn, thread_end}
use cl_async.Worker.Messages.{tasks_after_all}
use cl_async.Worker.Turns.{turn-shutdown}
use cl_async.Worker.Shutdown.{HasRun, thread_end-kill}
use cl_async.Examples.Numbers.{numbered, signals}
use cl_async.Examples.Rings.{small_ring, submission_of, room_for_one}
use cl_async.Examples.Work.{counting, slots, countdown, tasks, by_id, two_ready}
use cl_async.Examples.Workers.{one_fd, unused}

abbrev parts : Parts
parts = record {
  T = counting;
  R = small_ring;
  slots = slots;
  F = countdown;
  ready = tasks;
  running = by_id;
  wakers = function_dict ℕ;
  E = one_fd;
  fds = function_dict ℤ;
  queues = function_dict EventQueue;
  libc = numbered;
  submit = λ r. r;
  blocking_submit = λ n r. some r;
  count = λ m. 0;
  is_empty = λ m. false;
  keys = λ m. 1 ∷ [];
  eventfd = λ k. (some (pos 8), k);
}

abbrev bits : Bits
bits = record { read = 1; kill = 2; shutdown = 4 }

-- Busy, with two tasks that are ready and a submission that waits.
abbrev worker : Worker parts bits
worker = record {
  state = WorkerState.busy;
  executor = two_ready;
  world = [];
  io_context = room_for_one;
  waiting_submissions = submission_of 6 ∷ [];
  registry = unused;
  queue_registry = λ _. none;
  message_channel_key = 100;
  message_fd = pos 7;
  effects = [];
}

-- A signal, and then a message.
abbrev two_events : List (Event × Option ℤ)
two_events =
    (record { event_type = 1; key = 51 }, some (pos 2))
    ∷ (record { event_type = 1; key = 100 }, none)
    ∷ []

-- A submission, a shutdown, and the wake of a task.
abbrev last_messages : List (Message parts bits)
last_messages = Message.submit_io (submission_of 7) ∷ Message.shutdown ∷ Message.wake_task 1 ∷ []

turn-shutdown_example :
    (v : Worker parts bits) × (es : List Effect) × (turn parts bits signals 50 51 9
        (Polled.events two_events)
        last_messages
        worker
      ≡ some (Turn.stops v))
    × (v.effects ≡ es ++ Effect.notifies Notification.shutdown ∷ [])
    × HasRun parts bits signals 50 51 9 (tasks_after_all parts bits last_messages two_ready) [] v
unfolding is_kill
turn-shutdown_example =
    turn-shutdown parts bits signals 50 51 9 two_events last_messages worker refl refl refl
      (omega arith)

thread_end-kill_example :
    (v : Worker parts bits) × (s : Bool) × (es : List Effect) × (receive parts bits
        (Message.shutdown ∷ Message.kill ∷ [])
        worker
        false
      ≡ (Flow.returns v, s))
    × ((thread_end parts bits signals 50 51 9 v).effects ≡ v.effects ++ [])
unfolding is_kill
thread_end-kill_example =
    thread_end-kill parts bits signals 50 51 9 (Message.shutdown ∷ []) [] worker false refl refl
