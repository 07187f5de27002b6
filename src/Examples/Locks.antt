-- ===== src/Examples/Locks.antt =====
-- Runs of src/sync/semaphore.rs, src/sync/rw_lock.rs and src/sync/mutex.rs on concrete inputs.
use cl_async.Base.{
  ℕ, ◌+◌, ◌≤◌, ◌≡◌, refl, true, false, Fifo, list_fifo, some, List, [], ◌∷◌, sum_of, All, contains,
  ◌%◌, arith,
}
use cl_async.Sync.Semaphore.{
  usize_mod, SemaphoreFuture, SemaphoreFutureState, head, take_all, Inner, new, new_hungry,
  new_inner, needed, gathered, loaded, take_step, sem_step,
}
use cl_async.Sync.Semaphore.Alone.{sem_fut, poll_at_once, sem_fut-poll_at_once}
use cl_async.Sync.Semaphore.Waking.{add_permits, add_permits_lem}
use cl_async.Sync.Semaphore.System
use cl_async.Sync.Semaphore.System.Account.{claim, surplus, surplus_of}
use cl_async.Sync.Semaphore.System.Totals.{total, AllFit, surplus_at, surplus_run, run-total}
use cl_async.Sync.Semaphore.System.Polite.{IsPolite}
use cl_async.Sync.Semaphore.System.Holders.{held, held-le, hungry_drop_frees}
use cl_async.Sync.RwLock.{
  LockEvent, as_event, as_events, with_max_readers, lock_run, lock_surplus, writer_excludes,
}
use cl_async.Sync.Mutex
use cl_async.Sync.Mutex.Exclusion.{guards, mutual_exclusion, clone_breaks_exclusion}
use cl_async.Sync.Mutex.Wakers.{waiting_is_queued}

abbrev waiters : Fifo ℕ
waiters = list_fifo ℕ

-- One agent takes two permits of three, another asks for two.
abbrev two_and_two : List (ℕ × System.Event)
two_and_two =
    (0, System.acquire 2)
    ∷ (0, System.poll)
    ∷ (0, System.step)
    ∷ (0, System.step)
    ∷ (1, System.acquire 2)
    ∷ (1, System.poll)
    ∷ (1, System.step)
    ∷ (1, System.step)
    ∷ []

abbrev after_two : System.System waiters
after_two = System.run waiters two_and_two (System.start waiters 2 3)

quiet : surplus_run waiters two_and_two (System.start waiters 2 3) ≡ 0
unfolding surplus_run surplus_at surplus surplus_of System.act System.at_agent System.turn
    System.idle_turn System.after_step sem_step loaded needed gathered take_step new new_inner
    System.agents_of System.start
quiet = refl

starts : total waiters (System.start waiters 2 3) ≡ 3
unfolding total claim System.start System.agents_of new_inner
starts = refl

absent-AllFit : AllFit waiters (System.start waiters 2 3)
unfolding System.start System.agents_of
absent-AllFit = (tt, (tt, tt))

run-total_example :
    AllFit waiters after_two
    × (total waiters after_two
        ≡ total waiters (System.start waiters 2 3)
          + surplus_run waiters two_and_two (System.start waiters 2 3))
run-total_example =
    run-total waiters two_and_two (System.start waiters 2 3) absent-AllFit
      (omega (arith, quiet, starts))

absent-IsPolite : All IsPolite (System.start waiters 2 3).agents
unfolding System.start System.agents_of
absent-IsPolite = (tt, (tt, tt))

held-le_example : after_two.inner.permits + sum_of held after_two.agents ≤ 3
held-le_example = held-le waiters 2 3 two_and_two (omega arith) quiet

-- One agent takes all three permits.
abbrev all_three : List (ℕ × System.Event)
all_three = (0, System.acquire 3) ∷ (0, System.poll) ∷ (0, System.step) ∷ (0, System.step) ∷ []

abbrev after_three : System.System waiters
after_three = System.run waiters all_three (System.start waiters 2 3)

-- A future that gathered one permit of three, when two are left.
abbrev one_of_three : SemaphoreFuture
one_of_three = record { desired_permits = 3; state = SemaphoreFutureState.hungry 1 }

abbrev two_left : Inner waiters
two_left = record { permits = 2; waker_queue = [] }

hungry_drop_frees_example :
    let t =
      System.turn waiters 0 System.step two_left (System.polling one_of_three (take_all true 2)) in
    let u = System.turn waiters 0 System.drop_future t.inner t.agent in
    (held u.agent ≡ 3) × (1 ≤ u.inner.permits)
unfolding needed gathered
hungry_drop_frees_example =
    hungry_drop_frees waiters 0 1 two_left one_of_three true refl (omega arith) (omega arith)
      (omega arith)

sem_fut-poll_at_once_example :
    sem_fut waiters 4 0 two_left one_of_three (head false)
    ≡ some (poll_at_once waiters 0 two_left one_of_three)
sem_fut-poll_at_once_example = sem_fut-poll_at_once waiters 0 0 two_left one_of_three

abbrev three_wait : Inner waiters
three_wait = record { permits = 0; waker_queue = 4 ∷ 5 ∷ 6 ∷ [] }

add_permits_lem_example :
    let (t, woken) = add_permits waiters 2 three_wait in
    (t.permits ≡ (0 + 2) % usize_mod) × (woken ≡ 4 ∷ 5 ∷ []) × (t.waker_queue ≡ 6 ∷ [])
add_permits_lem_example = add_permits_lem waiters 2 three_wait

-- A writer takes the lock.
abbrev one_writes : List (ℕ × LockEvent)
one_writes =
    (0, LockEvent.write)
    ∷ (0, LockEvent.poll)
    ∷ (0, LockEvent.step)
    ∷ (0, LockEvent.step)
    ∷ (1, LockEvent.read)
    ∷ (1, LockEvent.poll)
    ∷ []

abbrev reader : SemaphoreFuture
reader = record { desired_permits = 1; state = SemaphoreFutureState.polite }

writer_excludes_example :
    (held (System.polling reader (head false)) ≡ 0)
    × ((lock_run waiters 2 3 one_writes).inner.permits ≡ 0)
    × (sum_of held (lock_run waiters 2 3 one_writes).agents ≤ 3)
unfolding surplus_run surplus_at surplus surplus_of System.act System.at_agent System.turn
    System.idle_turn System.after_step sem_step loaded needed gathered take_step new new_inner
    System.agents_of System.start System.run held new_hungry lock_run lock_surplus as_event
    as_events with_max_readers
writer_excludes_example =
    writer_excludes waiters 2 3 one_writes 0 1
      (System.acquired (record { desired_permits = 3; state = SemaphoreFutureState.hungry 0 }))
      (System.polling reader (head false)) (omega arith) refl refl refl (λ e. omega (arith, e)) refl

-- A task locks, and another waits.
abbrev one_waits : List (ℕ × Mutex.Event)
one_waits =
    (0, Mutex.lock)
    ∷ (0, Mutex.poll)
    ∷ (0, Mutex.step)
    ∷ (1, Mutex.lock)
    ∷ (1, Mutex.poll)
    ∷ (1, Mutex.step)
    ∷ (1, Mutex.step)
    ∷ (1, Mutex.step)
    ∷ []

abbrev contended : Mutex.System waiters
contended = Mutex.run waiters one_waits (Mutex.start waiters)

mutual_exclusion_example :
    (◌≡◌ {A = ℕ} 0 0) × (guards (contended.task 0) ≡ 1) × (contended.inner.locked ≡ true)
unfolding Mutex.run Mutex.act Mutex.turn Mutex.quiet Mutex.poll_step Mutex.check_lock
    Mutex.suspended Mutex.start Mutex.new Mutex.wake guards
mutual_exclusion_example =
    mutual_exclusion waiters one_waits 0 0 (tt, (tt, (tt, (tt, (tt, (tt, (tt, (tt, tt))))))))
      (omega arith) (omega arith)

waiting_is_queued_example : contains 1 contended.inner.waker_queue ≡ true
unfolding Mutex.run Mutex.act Mutex.turn Mutex.quiet Mutex.poll_step Mutex.check_lock
    Mutex.suspended Mutex.start Mutex.new Mutex.wake
waiting_is_queued_example = waiting_is_queued waiters one_waits 1 refl

abbrev taken : Mutex.Inner waiters
taken = record { locked = true; waker_queue = [] }

clone_breaks_exclusion_example :
    let c = Mutex.turn waiters 0 Mutex.clone taken (Mutex.guarded 0) in
    let d = Mutex.turn waiters 0 Mutex.drop_guard c.inner c.task in
    let t = Mutex.turn waiters 1 Mutex.step d.inner (Mutex.polling Mutex.first_try false) in
    (guards d.task ≡ 1) × (guards t.task ≡ 1) × (t.inner.locked ≡ true)
clone_breaks_exclusion_example = clone_breaks_exclusion waiters 0 1 0 taken false
