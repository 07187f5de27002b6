-- ===== src/Sync/Semaphore.antt =====
-- src/sync/semaphore.rs: the counting semaphore, one atomic access at a time.
--
-- `SemaphoreInner` is the record `Inner`; the loop of `sem_fut` is a program counter `Pc` with the
-- locals that are live there, and `sem_step` makes the next atomic access. The waker queue
-- (crossbeam's `SegQueue`) is a parameter; a waker is the number of the agent that it wakes.
pub mod System
pub mod Alone
pub mod Waking
use cl_async.Base.{ℕ, ◌+◌, ◌-◌, ◌%◌, ◌^◌, Bool, true, false, leb, ltb, ◌==◌, if◌then◌else◌, Fifo}

-- `usize`, on the 64-bit targets that io_uring has.
abbrev pub usize_mod : ℕ
usize_mod = 2 ^ 64

pub data SemaphoreFutureState : Type 0 where
  polite : SemaphoreFutureState
  hungry : (count : ℕ) → SemaphoreFutureState

pub record SemaphoreFuture : Type 0 where
  pub desired_permits : ℕ
  pub state : SemaphoreFutureState

-- `SemaphoreFuture::new`.
unfoldable pub new : ℕ → SemaphoreFuture
new n = record { desired_permits = n; state = polite }

-- `SemaphoreFuture::new_hungry`.
unfoldable pub new_hungry : ℕ → SemaphoreFuture
new_hungry n = record { desired_permits = n; state = hungry 0 }

-- What a future has taken from the counter so far.
unfoldable pub gathered : SemaphoreFutureState → ℕ
gathered polite = 0
gathered (hungry count) = count

-- `desired_permits.saturating_sub(match state { … })`.
unfoldable pub needed : SemaphoreFuture → ℕ
unfolding gathered
needed f = f.desired_permits - gathered f.state

-- Where a poll stands between two atomic accesses of `sem_fut`.
pub data Pc : Type 0 where
  head : (queued : Bool) → Pc  -- before the load
  take_all : (queued : Bool) (permits : ℕ) → Pc  -- before the first compare-exchange
  drain : (queued : Bool) (permits : ℕ) → Pc  -- before the second compare-exchange
  enqueue : Pc  -- before the push of the waker

-- What a poll does next: another access, or it returns.
pub data Next : Type 0 where
  more : Pc → Next
  ready : Next  -- `Poll::Ready`, with a permit of weight `desired_permits`
  pending : Next

-- The end of the loop's body.
unfoldable pub finish : Bool → Next
finish true = pending
finish false = more enqueue

-- The body from `if let Hungry(count) = state` on, with the value loaded before.
unfoldable pub try_drain : SemaphoreFutureState → Bool → ℕ → Next
unfolding finish
try_drain polite queued permits = finish queued
try_drain (hungry count) queued permits =
    if ltb 0 permits then more (drain queued permits) else finish queued

-- The body after the load: the first test.
unfoldable pub loaded : SemaphoreFuture → Bool → ℕ → Next
unfolding needed try_drain
loaded f queued permits =
    if leb (needed f) permits
    then more (take_all queued permits)
    else try_drain f.state queued permits

module _ (W : Fifo ℕ) where
  pub record Inner : Type 0 where
    pub permits : ℕ
    pub waker_queue : W.Queue

  -- `SemaphoreInner::new`.
  unfoldable pub new_inner : ℕ → Inner
  new_inner n = record { permits = n; waker_queue = W.empty }

  -- `SemaphoreInner::available_permits`.
  pub available_permits : Inner → ℕ
  available_permits s = s.permits

  -- The shared state, the future and what follows, after one access.
  pub record Outcome : Type 0 where
    pub inner : Inner
    pub future : SemaphoreFuture
    pub next : Next

  -- `compare_exchange(permits, permits - needed)`; a failure goes on below if the waker is queued.
  unfoldable pub take_step : ℕ → Inner → SemaphoreFuture → Bool → Outcome
  unfolding needed try_drain
  take_step permits s f queued =
      if s.permits == permits
      then record { inner = record s { permits = permits - needed f }; future = f; next = ready }
      else record {
        inner = s;
        future = f;
        next = if queued then try_drain f.state queued permits else more (head false);
      }

  -- `compare_exchange(permits, 0)`, and `*count += n`.
  unfoldable pub drain_step : ℕ → Inner → SemaphoreFuture → Bool → Outcome
  unfolding gathered finish
  drain_step permits s f queued =
      if s.permits == permits
      then record {
        inner = record s { permits = 0 };
        future = record f { state = hungry (gathered f.state + permits) };
        next = finish queued;
      }
      else record {
        inner = s;
        future = f;
        next = if queued then finish queued else more (head false);
      }

  -- One atomic access of a poll by agent `me`.
  unfoldable pub sem_step : ℕ → Inner → SemaphoreFuture → Pc → Outcome
  unfolding loaded take_step drain_step
  sem_step me s f (head queued) = record { inner = s; future = f; next = loaded f queued s.permits }
  sem_step me s f (take_all queued permits) = take_step permits s f queued
  sem_step me s f (drain queued permits) = drain_step permits s f queued
  sem_step me s f enqueue = record {
    inner = record s { waker_queue = W.push s.waker_queue me };
    future = f;
    next = more (head true);
  }

  -- The first access of `add_permits`: `fetch_add`.
  unfoldable pub add_step : ℕ → Inner → Inner
  add_step n s = record s { permits = (s.permits + n) % usize_mod }
