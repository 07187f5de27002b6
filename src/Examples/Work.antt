-- ===== src/Examples/Work.antt =====
-- Runs of src/io/completion_queue.rs, src/task/executor.rs and src/events/queue on concrete inputs.
use cl_async.Base.{
  ℕ, zero, suc, ◌≡◌, refl, true, false, Option, none, some, List, [], ◌∷◌, ◌++◌, Dict,
  function_dict, Fifo, list_fifo, arith, map,
}
use cl_async.Base.Int.{pos, negsuc}
use cl_async.Io.Completion.{
  Completable, IoDuration, IoOperation, IoEntry, IoCompletionState, MultiCompletionResultState,
  complete_op,
}
use cl_async.Io.Completion.Persistent.{take_each, results_of, complete_list, results_in_order}
use cl_async.Io.CompletionQueue
use cl_async.Io.CompletionQueue.{IoCompletionSlot, Poll, pending, ready, add_entry, complete}
use cl_async.Io.CompletionQueue.Lifecycle.{single_lifecycle}
use cl_async.Task.Executor.{Futures, LocalTask, Executor, run_ready_tasks}
use cl_async.Task.Executor.Running.{run_ready_tasks_lem, poll_each}
use cl_async.Events.Queue.{Event, EventQueue, next_event, push_and_wake}
use cl_async.Events.Queue.Delivery.{next_event_delivery}
use cl_async.Examples.Numbers.{numbered}

-- An operation that counts its completions.
abbrev pub counting : Completable
counting = record {
  IoType = ℕ;
  Completion = ℕ;
  Failure = ℕ;
  get_completion = λ t n. (n, suc t);
  get_failure = λ t. (t, t);
}

abbrev pub slots : Dict (IoCompletionSlot counting)
slots = function_dict (IoCompletionSlot counting)

abbrev entry_of : IoDuration → IoEntry counting
entry_of d = record { op = record { fd = pos 3; t = 0; duration = d }; key = 9 }

single_lifecycle_example :
    let added = add_entry counting slots 9 (entry_of IoDuration.single) none slots.empty in
    let (parked, before) = CompletionQueue.poll counting slots 9 1 added in
    let done = complete counting slots numbered 9 (negsuc 3) parked in
    let (taken, after) = CompletionQueue.poll counting slots 9 1 done.slots in
    (before ≡ pending)
    × (done.wakes ≡ some 1)
    × (done.removed ≡ false)
    × (after
        ≡ ready (some (complete_op counting numbered (negsuc 3) (entry_of IoDuration.single).op).0))
    × (slots.get taken 9 ≡ none)
single_lifecycle_example =
    single_lifecycle counting slots numbered slots.empty 9 1 (entry_of IoDuration.single) none
      (negsuc 3) refl

-- A future is the number of polls that it still wants; the world is the list of the wakers it saw.
abbrev after_polls : ℕ → ℕ → List ℕ → Option ℕ × List ℕ
after_polls waker zero seen = (none, seen ++ waker ∷ [])
after_polls waker (suc n) seen = (some n, seen ++ waker ∷ [])

abbrev pub countdown : Futures
countdown = record { Future = ℕ; World = List ℕ; poll = after_polls }

abbrev pub tasks : Fifo (LocalTask countdown)
tasks = list_fifo (LocalTask countdown)

abbrev pub by_id : Dict (LocalTask countdown)
by_id = function_dict (LocalTask countdown)

abbrev pub two_ready : Executor countdown tasks by_id (function_dict ℕ)
two_ready = record {
  ready_tasks = record { id = 1; future = 0 } ∷ record { id = 2; future = 5 } ∷ [];
  running_tasks = by_id.empty;
  waker_cache = λ _. none;
}

run_ready_tasks_lem_example :
    (q : tasks.Queue) × (tasks.contents q ≡ [])
    × (run_ready_tasks countdown tasks by_id (function_dict ℕ) 3 (two_ready, [])
        ≡ some (
          record (poll_each countdown tasks by_id
              (function_dict ℕ)
              two_ready.ready_tasks
              (two_ready, [])).0 { ready_tasks = q },
          (poll_each countdown tasks by_id
              (function_dict ℕ)
              two_ready.ready_tasks
              (two_ready, [])).1,
        ))
run_ready_tasks_lem_example =
    run_ready_tasks_lem countdown tasks by_id (function_dict ℕ) 3 two_ready [] (omega arith)

abbrev pub one_waits : Executor countdown tasks by_id (function_dict ℕ)
one_waits = record {
  ready_tasks = [];
  running_tasks = by_id.insert by_id.empty 2 (record { id = 2; future = 5 });
  waker_cache = λ _. none;
}

abbrev readable : Event
readable = record { event_type = 1; key = 7 }

abbrev hung_up : Event
hung_up = record { event_type = 16; key = 7 }

next_event_delivery_example :
    let (before, parked) = next_event 4 (record { queue = []; waker_queue = 3 ∷ [] }) in
    let (m, known, called) =
      push_and_wake
        (function_dict EventQueue)
        readable
        ((function_dict EventQueue).insert (λ _. none) 7 parked) in
    (before ≡ none)
    × (known ≡ true)
    × (called ≡ 3 ∷ 4 ∷ [])
    × (q : EventQueue) × (m 7 ≡ some q)
    × ((next_event 4 q).0 ≡ some readable)
next_event_delivery_example =
    next_event_delivery (function_dict EventQueue) (λ _. none) readable (3 ∷ []) 4

abbrev one_queue : ℕ → Option EventQueue
one_queue =
    (function_dict EventQueue).insert (λ _. none) 7 (record { queue = []; waker_queue = [] })

abbrev often : IoOperation counting
often = record { fd = pos 3; t = 0; duration = IoDuration.persistent }

results_in_order_example :
    take_each counting (results_of counting numbered (pos 4 ∷ negsuc 3 ∷ []) often) (
      complete_list counting numbered (pos 4 ∷ negsuc 3 ∷ []) (
        IoCompletionState.multi
          (record { inner = []; op = often; state = MultiCompletionResultState.running })))
    ≡ map some (results_of counting numbered (pos 4 ∷ negsuc 3 ∷ []) often)
results_in_order_example =
    results_in_order counting numbered (pos 4 ∷ negsuc 3 ∷ []) [] often
      MultiCompletionResultState.running
