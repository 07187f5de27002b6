-- ===== src/Worker/Shutdown.antt =====
-- src/worker/mod.rs: how a worker comes to its end.
use cl_async.Base.{
  ℕ, ◌+◌, ◌<◌, ◌≡◌, refl, sym, ap, subst, length, ◌∙◌, inl, inr, Bool, true, false, if◌then◌else◌,
  some, pop_cases, List, map, [], ◌∷◌, ◌++◌, arith, Bool-cases,
}
use mathlib.Core.List.{append-nil, append_assoc}
use cl_async.Io.Context.{complete_all}
use cl_async.Task.Executor.Running.{run_ready_tasks_lem, poll_each}
use cl_async.Events.Queue.{broadcast_and_wake}
use cl_async.Notifications.Signal.{LibcSignal}
use cl_async.Notifications.Reaction.{Notification}
use cl_async.Pool.{WorkerState}
use cl_async.Worker.{
  Parts, Bits, Effect, Message, Worker, Flow, Tasks, emit, set_state, is_kill, receive,
}
use cl_async.Worker.Loop.{
  Turn, has_ready, run_tasks, stop_or_go, ran, received, submit_io_entries, broadcast, thread_end,
  Stopping,
}
use cl_async.Worker.Messages.{
  has_kill, has_shutdown, arriving_all, ready_count, tasks_after_all, receive-next,
}

module _ (P : Parts) (B : Bits) (S : LibcSignal) (io_channel_key sfd_key fuel : ℕ) where
  none_ready :
      (q : P.ready.Queue)
      → P.ready.contents q ≡ []
      → has_ready P B S io_channel_key sfd_key fuel q ≡ false
  none_ready q h = elim (pop_cases P.ready q) [
    | inl (popped, nothing) ↦ rw (popped, has_ready) refl
    | inr (task, rest, popped, front_of) ↦ let no : ⊥ = cc (sym h ∙ front_of) in absurd no
  ]

  nothing_ready :
      (q : P.ready.Queue)
      → has_ready P B S io_channel_key sfd_key fuel q ≡ false
      → P.ready.contents q ≡ []
  nothing_ready q h = elim (pop_cases P.ready q) [
    | inl (popped, nothing) ↦ nothing
    | inr (task, rest, popped, front_of) ↦
        let some_ : has_ready P B S io_channel_key sfd_key fuel q ≡ true =
          rw (popped, has_ready) refl in
        let no : ⊥ = cc (sym h ∙ some_) in absurd no
  ]

  -- The tasks that were ready were polled once each, oldest first, and none is ready.
  abbrev pub HasRun : Tasks P B → P.F.World → Worker P B → Type 0
  HasRun x world v =
      let ran =
        poll_each P.F P.ready P.running P.wakers (P.ready.contents x.ready_tasks) (x, world) in
      (q : P.ready.Queue) × (P.ready.contents q ≡ [])
      × (v.executor ≡ record ran.0 { ready_tasks = q })
      × (v.world ≡ ran.1)

  -- One pass is enough when the fuel exceeds the tasks that are ready.
  run_tasks-ends :
      (w : Worker P B)
      → ready_count P B w < fuel
      → (v : Worker P B) × (run_tasks P B S io_channel_key sfd_key fuel 1 w ≡ some v)
        × (v.state ≡ w.state)
        × (v.waiting_submissions ≡ w.waiting_submissions)
        × HasRun w.executor w.world v
  unfolding run_tasks poll_each
  run_tasks-ends w h =
      elim (Bool-cases (has_ready P B S io_channel_key sfd_key fuel w.executor.ready_tasks)) [
        | inr nothing ↦
            let none_left = nothing_ready w.executor.ready_tasks nothing in
            (
              w,
              rw (nothing, run_tasks) refl,
              refl,
              refl,
              (
                w.executor.ready_tasks,
                none_left,
                rw (none_left, poll_each) refl,
                rw (none_left, poll_each) refl,
              ),
            )
        | inl something ↦
            let (q, empty, ran) =
              run_ready_tasks_lem P.F P.ready P.running P.wakers fuel w.executor w.world h in
            let idle = none_ready q empty in
            let (x, world) =
              poll_each P.F P.ready P.running P.wakers (P.ready.contents w.executor.ready_tasks)
                (w.executor, w.world) in
            (
              record w { executor = record x { ready_tasks = q }; world = world },
              rw (something, run_tasks, ran, idle) refl,
              refl,
              refl,
              (q, empty, refl, refl),
            )
      ]

  submit_io_entries-same :
      (b : Bool) (w : Worker P B)
      → let v = submit_io_entries P B S io_channel_key sfd_key fuel b w in
        (v.state ≡ w.state) × (v.executor ≡ w.executor) × (v.world ≡ w.world)
  unfolding submit_io_entries
  submit_io_entries-same true w = (refl, refl, refl)
  submit_io_entries-same false w = (refl, refl, refl)

  -- A turn that takes a shutdown and no kill ends the loop, once the tasks that are ready after the messages
  -- have run, and the last thing that it does is to tell the subscribers.
  pub received-shutdown :
      (ms : List (Message P B)) (w : Worker P B) (submit : Bool)
      → has_kill P B ms ≡ false
      → has_shutdown P B ms ≡ true
      → ready_count P B w + arriving_all P B ms < fuel
      → (v : Worker P B) × (es : List Effect) × (received P B S io_channel_key sfd_key fuel
            (receive P B ms w submit)
          ≡ some (Turn.stops v))
        × (v.effects ≡ es ++ Effect.notifies Notification.shutdown ∷ [])
        × HasRun (tasks_after_all P B ms w.executor) w.world v
  unfolding received ran stop_or_go emit receive broadcast
  received-shutdown ms w submit alive told enough =
      let (v, s, e, state, count, tasks, world) = receive-next P B ms w submit alive in
      let taken : receive P B ms w submit ≡ (Flow.next v, s) =
        ap (λ l. receive P B l w submit) (sym (append-nil ms)) ∙ e [] in
      let (same, entered, kept_world) = submit_io_entries-same s v in
      let u = submit_io_entries P B S io_channel_key sfd_key fuel s v in
      let size : ready_count P B u ≡ ready_count P B v =
        ap (λ x. length (P.ready.contents x.ready_tasks)) entered in
      let (t, ran_, kept, waiting, has_run) = run_tasks-ends u (omega arith) in
      let stopping : t.state ≡ WorkerState.stopping =
        kept ∙ same ∙ state ∙ ap (λ b. if b then WorkerState.stopping else w.state) told in
      let before = broadcast P B S io_channel_key sfd_key fuel B.shutdown t in
      (
        emit P B (Effect.notifies Notification.shutdown ∷ []) before,
        before.effects,
        rw (taken, ran_, stopping) refl,
        refl,
        subst (λ x. HasRun x w.world t) (entered ∙ tasks)
            (subst (λ x. HasRun u.executor x t) (kept_world ∙ world) has_run),
      )

  thread_end-effects :
      (v : Worker P B) (b : Bool)
      → v.state ≡ (if b then WorkerState.stopping else WorkerState.busy)
      → (es : List Effect) × ((thread_end P B S io_channel_key sfd_key fuel v).effects
          ≡ v.effects ++ (if b then [] else Effect.notifies Notification.kill ∷ es))
  unfolding thread_end set_state emit broadcast
  thread_end-effects v true e = ([], rw (e, thread_end) (sym (append-nil v.effects)))
  thread_end-effects v false e =
      let told = Effect.notifies Notification.kill ∷ [] in
      let called = broadcast_and_wake P.queues B.kill (P.keys v.queue_registry) v.queue_registry in
      (
        map Effect.wakes called.1,
        rw (e, thread_end) (append_assoc v.effects told (map Effect.wakes called.1)),
      )

  -- A kill in the loop: the thread tells the subscribers of it, unless a shutdown was taken before it.
  pub thread_end-kill :
      (ms rest : List (Message P B)) (w : Worker P B) (submit : Bool)
      → has_kill P B ms ≡ false
      → w.state ≡ WorkerState.busy
      → (v : Worker P B) × (s : Bool) × (es : List Effect) × (receive P B
            (ms ++ Message.kill ∷ rest)
            w
            submit
          ≡ (Flow.returns v, s))
        × ((thread_end P B S io_channel_key sfd_key fuel v).effects
            ≡ v.effects
              ++ (if has_shutdown P B ms then [] else Effect.notifies Notification.kill ∷ es))
  unfolding receive is_kill
  thread_end-kill ms rest w submit alive busy =
      let (v, s, e, state, count, tasks, world) = receive-next P B ms w submit alive in
      let left : v.state
          ≡ (if has_shutdown P B ms then WorkerState.stopping else WorkerState.busy) =
        state ∙ ap (λ t. if has_shutdown P B ms then WorkerState.stopping else t) busy in
      let (es, effects) = thread_end-effects v (has_shutdown P B ms) left in
      (v, s, es, e (Message.kill ∷ rest), effects)

  -- The worker after the wait of a turn after the loop.
  abbrev after_wait : Worker P B → P.R.Inner → Worker P B
  after_wait w inner = record w {
    io_context = complete_all P.T P.R P.slots P.libc (record w.io_context { inner = inner });
  }

  abbrev pub worker_of : Stopping P B S io_channel_key sfd_key fuel → Worker P B
  worker_of (Stopping.waits w) = w
  worker_of (Stopping.ended w) = w
