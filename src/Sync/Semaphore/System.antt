-- ===== src/Sync/Semaphore/System.antt =====
-- src/sync/semaphore.rs: agents that poll and drop semaphore futures and permits, interleaved at
-- every atomic access. An agent owns at most one future and the permit that it gave.
pub mod Fit
pub mod Account
pub mod Totals
pub mod Polite
pub mod Holders
use cl_async.Base.{
  ℕ, zero, suc, false, ltb, if◌then◌else◌, Fifo, Option, none, some, List, [], ◌∷◌, ◌++◌, get_elem?,
  set,
}
use cl_async.Sync.Semaphore.{
  SemaphoreFutureState, polite, hungry, SemaphoreFuture, new, new_hungry, Pc, head, more, ready,
  pending, Inner, new_inner, Outcome, sem_step, add_step,
}

pub data Agent : Type 0 where
  absent : Agent
  parked : (f : SemaphoreFuture) → Agent  -- the future waits for a poll
  polling : (f : SemaphoreFuture) (pc : Pc) → Agent  -- inside `sem_fut`
  acquired : (f : SemaphoreFuture) → Agent  -- the poll gave a permit, the future still lives
  holding : (weight : ℕ) → Agent  -- the permit alone
  waking : (rounds : ℕ) (kept : Option ℕ) → Agent  -- in the loop of `add_permits`

-- What an agent does: an event that does not fit its state changes nothing.
pub data Event : Type 0 where
  acquire : ℕ → Event
  acquire_hungry : ℕ → Event
  poll : Event
  step : Event
  drop_future : Event
  drop_permit : Event

-- After `add_permits`: what is left is the permit, if any.
unfoldable pub settled : Option ℕ → Agent
settled none = absent
settled (some w) = holding w

unfoldable pub agents_of : ℕ → List Agent
agents_of zero = []
agents_of (suc n) = absent ∷ agents_of n

module _ (W : Fifo ℕ) where
  pub record Turn : Type 0 where
    pub inner : Inner W
    pub agent : Agent
    pub woken : List ℕ

  unfoldable pub idle_turn : Inner W → Agent → Turn
  idle_turn s a = record { inner = s; agent = a; woken = [] }

  -- The end of an access of `sem_fut`.
  unfoldable pub after_step : Outcome W → Turn
  after_step o = elim o.next [
    | more pc ↦ record { inner = o.inner; agent = polling o.future pc; woken = [] }
    | ready ↦ record { inner = o.inner; agent = acquired o.future; woken = [] }
    | pending ↦ record { inner = o.inner; agent = parked o.future; woken = [] }
  ]

  -- One round of the loop in `add_permits`: `pop` and `wake`, or `break`.
  unfoldable pub wake_round : ℕ → Option ℕ → Inner W → Turn
  unfolding settled
  wake_round rounds kept s = elim (W.pop s.waker_queue) [
    | none ↦ record { inner = s; agent = settled kept; woken = [] }
    | some r ↦ record {
      inner = record s { waker_queue = r.1 };
      agent = waking rounds kept;
      woken = r.0 ∷ [];
    }
  ]

  -- `add_permits(n)` begins; the rounds of its loop follow.
  unfoldable pub release : ℕ → Option ℕ → Inner W → Turn
  unfolding add_step
  release n kept s = record { inner = add_step W n s; agent = waking n kept; woken = [] }

  -- `Drop for SemaphoreFuture`, and the permit that stays.
  unfoldable pub drop_state : SemaphoreFutureState → Option ℕ → Inner W → Turn
  unfolding settled release
  drop_state polite kept s = record { inner = s; agent = settled kept; woken = [] }
  drop_state (hungry count) kept s =
      if ltb 0 count
      then release count kept s
      else record { inner = s; agent = settled kept; woken = [] }

  unfoldable pub turn : ℕ → Event → Inner W → Agent → Turn
  unfolding idle_turn
  turn me (acquire n) s absent = idle_turn s (parked (new n))
  turn me (acquire_hungry n) s absent = idle_turn s (parked (new_hungry n))
  turn me poll s (parked f) = idle_turn s (polling f (head false))
  turn me step s (polling f pc) = after_step (sem_step W me s f pc)
  turn me step s (waking zero kept) = idle_turn s (settled kept)
  turn me step s (waking (suc rounds) kept) = wake_round rounds kept s
  turn me drop_future s (parked f) = drop_state f.state none s
  turn me drop_future s (acquired f) = drop_state f.state (some f.desired_permits) s
  turn me drop_permit s (holding weight) = release weight none s
  turn me event s a = idle_turn s a

  -- The semaphore, its agents, and the wakers called so far, the latest last.
  pub record System : Type 0 where
    pub inner : Inner W
    pub agents : List Agent
    pub woken : List ℕ

  -- `n` agents with no future yet, and a semaphore made by `Semaphore::new(permits)`.
  unfoldable pub start : ℕ → ℕ → System
  unfolding agents_of new_inner
  start n permits = record { inner = new_inner W permits; agents = agents_of n; woken = [] }

  unfoldable pub at_agent : ℕ → Event → System → Option Agent → System
  at_agent i e s none = s
  at_agent i e s (some a) =
      let t = turn i e s.inner a in
      record { inner = t.inner; agents = set s.agents i t.agent; woken = s.woken ++ t.woken }

  unfoldable pub act : ℕ → Event → System → System
  unfolding at_agent
  act i e s = at_agent i e s (get_elem? s.agents i)

  unfoldable pub run : List (ℕ × Event) → System → System
  unfolding act turn after_step wake_round release drop_state new new_hungry sem_step
  run [] s = s
  run ((i, e) ∷ es) s = run es (act i e s)
