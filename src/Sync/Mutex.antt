-- ===== src/Sync/Mutex.antt =====
-- src/sync/mutex.rs: the mutex, one atomic access at a time, and tasks that lock it in any order.
--
-- `Inner` is `MutexInner` without the value that it guards. A task owns at most one `MutexFuture` or
-- the guards that it gave (`clone` makes a further one); a waker is the number of its task. A task
-- polls a future only until it is ready, as the contract of `Future` has it.
pub mod Exclusion
pub mod Wakers
use cl_async.Base.{
  ℕ, zero, suc, ◌≡◌, Bool, true, false, ◌==◌, if◌then◌else◌, Fifo, Option, none, some, List, [],
  ◌∷◌,
}

-- Where `MutexFuture::poll` stands between two accesses.
pub data Pc : Type 0 where
  first_try : Pc  -- before the first `check_lock`
  enqueue : Pc  -- before the push of the waker
  second_try : Pc  -- before the second `check_lock`

pub data Task : Type 0 where
  absent : Task
  created : Task  -- a future that has not been polled
  polling : (pc : Pc) (woken : Bool) → Task  -- `woken`: its waker was called during the poll
  waiting : Task  -- the last poll was `Pending`, and its waker has not been called since
  notified : Task  -- the last poll was `Pending`, and its waker has been called since
  guarded : (more : ℕ) → Task  -- holds `more + 1` guards
  unlocking : (guards : ℕ) → Task  -- in the drop of a guard, after the store, and holds `guards`

pub data Event : Type 0 where
  lock : Event
  poll : Event
  step : Event
  drop_future : Event
  clone : Event
  drop_guard : Event

-- What a call of its waker does to a task.
unfoldable pub notify : Task → Task
notify waiting = notified
notify (polling pc woken) = polling pc true
notify t = t

-- `Poll::Pending`.
unfoldable pub suspended : Bool → Task
suspended true = notified
suspended false = waiting

unfoldable pub guards_left : ℕ → Task
guards_left zero = absent
guards_left (suc n) = guarded n

module _ (W : Fifo ℕ) where
  pub record Inner : Type 0 where
    pub locked : Bool
    pub waker_queue : W.Queue

  -- `MutexInner::new`.
  unfoldable pub new : Inner
  new = record { locked = false; waker_queue = W.empty }

  pub record Turn : Type 0 where
    pub inner : Inner
    pub task : Task
    pub wakes : Option ℕ

  unfoldable pub quiet : Inner → Task → Turn
  quiet s t = record { inner = s; task = t; wakes = none }

  -- `check_lock`: `compare_exchange(false, true)`, and what follows.
  unfoldable pub check_lock : Inner → Task → Turn
  unfolding quiet
  check_lock s otherwise =
      if s.locked then quiet s otherwise else quiet (record s { locked = true }) (guarded 0)

  -- The next access of `MutexFuture::poll` by task `me`.
  unfoldable pub poll_step : ℕ → Inner → Pc → Bool → Turn
  unfolding check_lock suspended
  poll_step me s first_try woken = check_lock s (polling enqueue woken)
  poll_step me s enqueue woken =
      quiet (record s { waker_queue = W.push s.waker_queue me }) (polling second_try woken)
  poll_step me s second_try woken = check_lock s (suspended woken)

  -- `Drop for MutexGuard` after the store: `pop`, and `wake`.
  unfoldable pub wake_next : Inner → ℕ → Turn
  unfolding quiet guards_left
  wake_next s guards = elim (W.pop s.waker_queue) [
    | none ↦ quiet s (guards_left guards)
    | some r ↦ record {
      inner = record s { waker_queue = r.1 };
      task = guards_left guards;
      wakes = some r.0;
    }
  ]

  -- An event that does not fit the task's state changes nothing.
  unfoldable pub turn : ℕ → Event → Inner → Task → Turn
  unfolding quiet
  turn me lock s absent = quiet s created
  turn me poll s created = quiet s (polling first_try false)
  turn me poll s waiting = quiet s (polling first_try false)
  turn me poll s notified = quiet s (polling first_try false)
  turn me step s (polling pc woken) = poll_step me s pc woken
  turn me step s (unlocking guards) = wake_next s guards
  turn me drop_future s created = quiet s absent
  turn me drop_future s waiting = quiet s absent
  turn me drop_future s notified = quiet s absent
  turn me clone s (guarded more) = quiet s (guarded (suc more))
  turn me drop_guard s (guarded more) = quiet (record s { locked = false }) (unlocking more)
  turn me event s t = quiet s t

  pub record System : Type 0 where
    pub inner : Inner
    pub task : ℕ → Task

  abbrev pub update : (ℕ → Task) → ℕ → Task → ℕ → Task
  update f i t j = if i == j then t else f j

  -- The waker that a turn calls.
  unfoldable pub wake : Option ℕ → (ℕ → Task) → ℕ → Task
  wake none f = f
  wake (some w) f = update f w (notify (f w))

  unfoldable pub start : System
  unfolding new
  start = record { inner = new; task = λ _. absent }

  unfoldable pub act : ℕ → Event → System → System
  unfolding wake
  act i e s =
      let t = turn i e s.inner (s.task i) in
      record { inner = t.inner; task = wake t.wakes (update s.task i t.task) }

  unfoldable pub run : List (ℕ × Event) → System → System
  unfolding act turn poll_step wake_next notify start
  run [] s = s
  run ((i, e) ∷ es) s = run es (act i e s)
