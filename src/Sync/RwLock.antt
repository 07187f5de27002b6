-- ===== src/Sync/RwLock.antt =====
-- src/sync/rw_lock.rs: a readers-writer lock whose readers take one permit of a semaphore and whose
-- writers take them all, hungrily.
--
-- The value that the lock guards is left out: a guard is the permit that it carries.
use cl_async.Base.{ℕ, ◌-◌, ◌≤◌, ◌<◌, ◌≡◌, ◌≢◌, Fifo, some, List, [], ◌∷◌, get_elem?, sum_of, arith}
use cl_async.Sync.Semaphore.{usize_mod}
use cl_async.Sync.Semaphore.System.{
  Agent, Event, acquire, acquire_hungry, drop_permit, System, start, run,
}
use cl_async.Sync.Semaphore.System.Totals.{surplus_run}
use cl_async.Sync.Semaphore.System.Holders.{held, held-le, all_held_excludes}

pub data LockEvent : Type 0 where
  read : LockEvent
  write : LockEvent
  poll : LockEvent
  step : LockEvent
  drop_future : LockEvent
  drop_guard : LockEvent

-- The events of the semaphore inside a lock of `max_permits`: `read` awaits `acquire(1)`, `write`
-- awaits `acquire_hungry(max_permits)`, and the drop of a guard is that of its permit.
unfoldable pub as_event : ℕ → LockEvent → Event
as_event max_permits read = acquire 1
as_event max_permits write = acquire_hungry max_permits
as_event max_permits poll = Event.poll
as_event max_permits step = Event.step
as_event max_permits drop_future = Event.drop_future
as_event max_permits drop_guard = drop_permit

-- `RwLock::new`: `with_max_readers(usize::MAX)`.
pub default_max_readers : ℕ
default_max_readers = usize_mod - 1

unfoldable pub as_events : ℕ → List (ℕ × LockEvent) → List (ℕ × Event)
unfolding as_event
as_events max_permits [] = []
as_events max_permits ((i, e) ∷ es) = (i, as_event max_permits e) ∷ as_events max_permits es

module _ (W : Fifo ℕ) where
  -- `with_max_readers`, with `tasks` tasks that have no guard yet.
  unfoldable pub with_max_readers : ℕ → ℕ → System W
  with_max_readers tasks max_readers = start W tasks max_readers

  unfoldable pub lock_run : ℕ → ℕ → List (ℕ × LockEvent) → System W
  unfolding as_events with_max_readers
  lock_run tasks max_readers es =
      run W (as_events max_readers es) (with_max_readers tasks max_readers)

  -- The permits that the lock's writers have made out of nothing in a run.
  unfoldable pub lock_surplus : ℕ → ℕ → List (ℕ × LockEvent) → ℕ
  unfolding as_events with_max_readers
  lock_surplus tasks max_readers es =
      surplus_run W (as_events max_readers es) (with_max_readers tasks max_readers)

  -- While a task holds a write guard, no other task holds a guard and no permit is free; and the
  -- guards together never weigh more than `max_readers`. This is for runs in which no writer
  -- completes after it gathered only a part of the permits in an earlier poll.
  pub writer_excludes :
      (tasks max_readers : ℕ) (es : List (ℕ × LockEvent)) (i j : ℕ) (a b : Agent)
      → max_readers < usize_mod
      → lock_surplus tasks max_readers es ≡ 0
      → get_elem? (lock_run tasks max_readers es).agents i ≡ some a
      → get_elem? (lock_run tasks max_readers es).agents j ≡ some b
      → i ≢ j
      → held a ≡ max_readers
      → (held b ≡ 0)
        × ((lock_run tasks max_readers es).inner.permits ≡ 0)
        × (sum_of held (lock_run tasks max_readers es).agents ≤ max_readers)
  unfolding lock_run lock_surplus
  writer_excludes tasks n es i j a b small quiet at_i at_j ne full =
      let (none_held, empty) =
        all_held_excludes W tasks n (as_events n es) i j a b small quiet at_i at_j ne full in
      (none_held, empty, omega (arith, held-le W tasks n (as_events n es) small quiet))
