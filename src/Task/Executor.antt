-- ===== src/Task/Executor.antt =====
-- src/task/executor.rs: the tasks of one worker, those that are ready and those that wait for a waker.
--
-- The ready queue (`crossbeam_deque::Worker` in FIFO order) and the maps (`FxHashMap`) are parameters,
-- and so is what polling a future does (`Futures`). A waker only sends the task's id to the worker, so
-- that a waker is the id it sends; a task cannot reach the executor while it is polled.
pub mod Running
use cl_async.Base.{ℕ, zero, suc, Option, none, some, Dict, Fifo}

-- The futures of the tasks. `poll` takes the waker of the context; it gives `none` for `Ready(())`, and
-- for `Pending` the future as it is left.
pub record Futures : Type 1 where
  pub Future : Type 0
  pub World : Type 0
  pub poll : ℕ → Future → World → Option Future × World

module _ (F : Futures) where
  pub record LocalTask : Type 0 where
    pub id : ℕ
    pub future : F.Future

module _ (F : Futures) (W : Fifo (LocalTask F)) (D : Dict (LocalTask F)) (C : Dict ℕ) where
  pub record Executor : Type 0 where
    pub ready_tasks : W.Queue
    pub running_tasks : D.Map
    pub waker_cache : C.Map

  -- `Executor::new`.
  pub new : Executor
  new = record { ready_tasks = W.empty; running_tasks = D.empty; waker_cache = C.empty }

  -- `spawn`.
  unfoldable pub spawn : LocalTask F → Executor → Executor
  spawn task x = record x { ready_tasks = W.push x.ready_tasks task }

  -- `wake_task`.
  unfoldable pub wake_task : ℕ → Executor → Executor
  wake_task task_id x = elim (D.get x.running_tasks task_id) [
    | none ↦ x
    | some task ↦ record x {
      running_tasks = D.remove x.running_tasks task_id;
      ready_tasks = W.push x.ready_tasks task;
    }
  ]

  -- `waker_cache.entry(task_id).or_insert_with(…)`: the waker, and the cache.
  unfoldable pub cached_waker : ℕ → C.Map → ℕ × C.Map
  cached_waker task_id cache = elim (C.get cache task_id) [
    | none ↦ (task_id, C.insert cache task_id task_id)
    | some waker ↦ (waker, cache)
  ]

  -- The match of `run_task` on what the poll gave.
  unfoldable pub after_poll : ℕ → C.Map → Option F.Future → Executor → Executor
  after_poll task_id cache none x = record x { waker_cache = C.remove cache task_id }
  after_poll task_id cache (some future) x = record x {
    waker_cache = cache;
    running_tasks = D.insert x.running_tasks task_id (record { id = task_id; future = future });
  }

  -- `run_task`.
  pub run_task : LocalTask F → Executor × F.World → Executor × F.World
  unfolding after_poll
  run_task task (x, w) =
      let (waker, cache) = cached_waker task.id x.waker_cache in
      let (left, world) = F.poll waker task.future w in (after_poll task.id cache left x, world)

  -- The loop of `run_ready_tasks`, on fuel: what it leaves, and whether it came to its end.
  pub run_ready_tasks : ℕ → Executor × F.World → Option (Executor × F.World)
  unfolding run_task
  run_ready_tasks zero s = none
  run_ready_tasks (suc fuel) (x, w) = elim (W.pop x.ready_tasks) [
    | none ↦ some (x, w)
    | some (task, rest) ↦ run_ready_tasks fuel (run_task task (record x { ready_tasks = rest }, w))
  ]
