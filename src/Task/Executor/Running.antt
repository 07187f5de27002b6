-- ===== src/Task/Executor/Running.antt =====
-- src/task/executor.rs: what a pass over the ready tasks amounts to.
use mathlib.Core.Option
use cl_async.Base.{
  ℕ, zero, suc, ◌<◌, ◌≡◌, refl, ap, ◌∙◌, inl, inr, ==_iff, if◌then◌else◌, Option, none, some,
  Option-cases, List, [], ◌∷◌, ◌++◌, length, Dict, Fifo, pop_cases, arith,
}
use cl_async.Task.Executor.{
  Futures, LocalTask, Executor, wake_task, cached_waker, after_poll, run_task, run_ready_tasks,
}

module _ (F : Futures) (W : Fifo (LocalTask F)) (D : Dict (LocalTask F)) (C : Dict ℕ) where
  abbrev State : Type 0
  State = Executor F W D C × F.World

  -- The tasks of a list polled once each, in their order.
  unfoldable pub poll_each : List (LocalTask F) → State → State
  poll_each [] s = s
  poll_each (task ∷ rest) s = poll_each rest (run_task F W D C task s)

  abbrev with_ready : W.Queue → State → State
  with_ready q (x, w) = (record x { ready_tasks = q }, w)

  after_poll-ready :
      (id : ℕ) (cache : C.Map) (left : Option F.Future) (q : W.Queue) (x : Executor F W D C)
      → after_poll F W D C id cache left (record x { ready_tasks = q })
        ≡ record (after_poll F W D C id cache left x) { ready_tasks = q }
  unfolding after_poll
  after_poll-ready id cache none q x = refl
  after_poll-ready id cache (some future) q x = refl

  -- Polling a task looks at the map and at the cache, and leaves the ready queue as it is.
  run_task-with_ready :
      (task : LocalTask F) (q : W.Queue) (s : State)
      → run_task F W D C task (with_ready q s) ≡ with_ready q (run_task F W D C task s)
  unfolding run_task
  run_task-with_ready task q (x, w) =
      let (waker, cache) = cached_waker F W D C task.id x.waker_cache in
      let (left, world) = F.poll waker task.future w in
      ap (λ y. (y, world)) (after_poll-ready task.id cache left q x)

  poll_each-with_ready :
      (tasks : List (LocalTask F)) (q : W.Queue) (s : State)
      → poll_each tasks (with_ready q s) ≡ with_ready q (poll_each tasks s)
  unfolding poll_each
  poll_each-with_ready [] q s = refl
  poll_each-with_ready (task ∷ rest) q s =
      ap (poll_each rest) (run_task-with_ready task q s)
      ∙ poll_each-with_ready rest q (run_task F W D C task s)

  -- A pass over the ready tasks comes to its end, and is those tasks polled once each, oldest first,
  -- with the queue empty after it.
  pub run_ready_tasks_lem :
      (fuel : ℕ) (x : Executor F W D C) (w : F.World)
      → length (W.contents x.ready_tasks) < fuel
      → (q : W.Queue) × (W.contents q ≡ [])
        × (run_ready_tasks F W D C fuel (x, w)
            ≡ some (with_ready q (poll_each (W.contents x.ready_tasks) (x, w))))
  unfolding run_ready_tasks poll_each
  run_ready_tasks_lem zero x w h = absurd (omega arith)
  run_ready_tasks_lem (suc fuel) x w h = elim (pop_cases W x.ready_tasks) [
    | inl (popped, nothing) ↦ rw (popped, run_ready_tasks, nothing) (x.ready_tasks, nothing, refl)
    | inr (task, rest, popped, front_of) ↦
        let s = run_task F W D C task (x, w) in
        let (q, empty, ran) =
          run_ready_tasks_lem fuel (record s.0 { ready_tasks = rest }) s.1
            (shorter task rest front_of h) in
        rw (popped, run_ready_tasks, front_of)
          (
            q,
            empty,
            ap (run_ready_tasks F W D C fuel) (run_task-with_ready task rest (x, w))
                ∙ ran
                ∙ ap (λ t. some (with_ready q t)) (poll_each-with_ready (W.contents rest) rest s),
          )
  ]
    where
      shorter :
          (task : LocalTask F) (rest : W.Queue)
          → W.contents x.ready_tasks ≡ task ∷ W.contents rest
          → length (W.contents x.ready_tasks) < suc fuel
          → length (W.contents rest) < fuel
      shorter task rest e h =
          let same : length (W.contents x.ready_tasks) ≡ suc (length (W.contents rest)) =
            ap length e in
          omega arith

  get-insert_same : (m : D.Map) (k : ℕ) (t : LocalTask F) → D.get (D.insert m k t) k ≡ some t
  get-insert_same m k t =
      D.get-insert m k k t ∙ ap (λ b. if b then some t else D.get m k) ((==_iff k k).1 refl)

  get-remove_same : (m : D.Map) (k : ℕ) → D.get (D.remove m k) k ≡ none
  get-remove_same m k =
      D.get-remove m k k ∙ ap (λ b. if b then none else D.get m k) ((==_iff k k).1 refl)

  wake_task-none :
      (id : ℕ) (x : Executor F W D C) → D.get x.running_tasks id ≡ none → wake_task F W D C id x ≡ x
  unfolding wake_task
  wake_task-none id x h = rw (h, wake_task)

  wake_task-some :
      (id : ℕ) (x : Executor F W D C) (task : LocalTask F)
      → D.get x.running_tasks id ≡ some task
      → wake_task F W D C id x ≡ record x {
        running_tasks = D.remove x.running_tasks id;
        ready_tasks = W.push x.ready_tasks task;
      }
  unfolding wake_task
  wake_task-some id x task h = rw (h, wake_task)

  -- Waking a task that is already ready, or was woken before, changes nothing: it is polled once.
  wake_task_twice :
      (id : ℕ) (x : Executor F W D C)
      → wake_task F W D C id (wake_task F W D C id x) ≡ wake_task F W D C id x
  wake_task_twice id x = elim (Option-cases (D.get x.running_tasks id)) [
    | inl absent ↦ ap (wake_task F W D C id) (wake_task-none id x absent)
    | inr (task, waits) ↦
        wake_task-none id (wake_task F W D C id x)
          (rw (wake_task-some id x task waits) (get-remove_same x.running_tasks id))
  ]

  after_poll-get :
      (task : LocalTask F) (cache : C.Map) (left : Option F.Future) (x : Executor F W D C)
      → D.get x.running_tasks task.id ≡ none
      → D.get (after_poll F W D C task.id cache left x).running_tasks task.id
        ≡ Option.map (λ (f : F.Future). record task { future = f }) left
  unfolding after_poll
  after_poll-get task cache none x absent = absent
  after_poll-get task cache (some future) x absent = get-insert_same x.running_tasks task.id _

  -- A task that waits and is woken while nothing is ready is polled exactly once in the next pass, with
  -- the cached waker; it waits again under its id if it is `Pending`, and is gone if it is `Ready`.
  pub wake_then_run :
      (fuel : ℕ) (x : Executor F W D C) (w : F.World) (task : LocalTask F)
      → 1 < fuel
      → W.contents x.ready_tasks ≡ []
      → D.get x.running_tasks task.id ≡ some task
      → let (waker, cache) = cached_waker F W D C task.id x.waker_cache in
        let (left, world) = F.poll waker task.future w in
        (y : Executor F W D C) × (run_ready_tasks F W D C fuel (wake_task F W D C task.id x, w)
          ≡ some (y, world))
        × (W.contents y.ready_tasks ≡ [])
        × (D.get y.running_tasks task.id
            ≡ Option.map (λ (f : F.Future). record task { future = f }) left)
  unfolding poll_each run_task
  wake_then_run fuel x w task h idle waits =
      let woken : Executor F W D C = record x {
        running_tasks = D.remove x.running_tasks task.id;
        ready_tasks = W.push x.ready_tasks task;
      } in
      let (waker, cache) = cached_waker F W D C task.id x.waker_cache in
      let (left, world) = F.poll waker task.future w in
      let alone : W.contents woken.ready_tasks ≡ task ∷ [] =
        W.contents-push x.ready_tasks task ∙ ap (λ l. l ++ task ∷ []) idle in
      let (q, empty, ran) = run_ready_tasks_lem fuel woken w (rw alone h) in
      (
        record (after_poll F W D C task.id cache left woken) { ready_tasks = q },
        rw (wake_task-some task.id x task waits)
            (ran ∙ ap (λ l. some (with_ready q (poll_each l (woken, w)))) alone),
        empty,
        after_poll-get task cache left woken (get-remove_same x.running_tasks task.id),
      )
