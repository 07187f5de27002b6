-- ===== src/Timing/Sleep.antt =====
-- src/timing/futures/sleep.rs: the future of a sleep, whose timer is a file descriptor that a worker watches.
--
-- The results of the calls of the kernel, of the registration of the handler and of the handler's own calls
-- are inputs; an error is its number. `W` is the type of the wakers. What the kernel does with the time of a
-- `timerfd_settime` is a parameter: whether it arms the timer.
pub mod Life
use cl_async.Base.{
  ℕ, ◌==◌, Bool, true, false, ◌&&◌, if◌then◌else◌, Option, none, some, Result, ok, err, List, [],
  ◌∷◌, ◌++◌,
}

pub data SleepError : Type 0 where
  timer_create_error timer_set_error timer_close_error : (errno : ℕ) → SleepError
  timer_poll_error : SleepError

pub data SleepState : Type 0 where
  not_submitted pending failure complete : SleepState

pub data Poll : Type 0 where
  is_pending : Poll
  ready : Result (Unit {0}) SleepError → Poll

-- The results of the calls in `submit`; `registered` says whether the handler was registered.
pub record Calls : Type 0 where
  pub create : Result (Unit {0}) ℕ
  pub settime : Result (Unit {0}) ℕ
  pub registered : Bool

-- The results of the calls in the handler: whether `read` and `close` succeed.
pub record Handled : Type 0 where
  pub read : Bool
  pub closed : Bool

module _ (W : Type 0) where
  -- The future with what it shares with its handler. `handler` is the waker that the registered handler
  -- holds until it has run, `armed` whether the timer is, and `woken` lists the wakers that were called.
  pub record Sleep : Type 0 where
    pub secs : ℕ
    pub nanos : ℕ
    pub state : SleepState
    pub handler : Option W
    pub armed : Bool
    pub woken : List W

  pub new : ℕ → ℕ → Sleep
  new secs nanos = record {
    secs = secs;
    nanos = nanos;
    state = not_submitted;
    handler = none;
    armed = false;
    woken = [];
  }

  pub set_state_and_wake : SleepState → W → Sleep → Sleep
  set_state_and_wake new_state waker s = record s {
    state = new_state;
    handler = none;
    woken = s.woken ++ waker ∷ [];
  }

  -- The handler, after its event.
  pub handle : Handled → W → Sleep → Sleep
  handle r waker s =
      if r.read
      then if r.closed
        then set_state_and_wake complete waker s
        else set_state_and_wake failure waker s
      else set_state_and_wake failure waker s

  -- The timer runs out, if it is armed and its handler waits.
  unfoldable pub fire : Handled → Sleep → Sleep
  unfolding handle set_state_and_wake
  fire r s = if s.armed then elim s.handler [ none ↦ s | some waker ↦ handle r waker s ] else s

  pub run_early : Option Handled → Sleep → Sleep
  unfolding fire
  run_early none s = s
  run_early (some r) s = fire r s

  module _ (arms : (secs nanos : ℕ) → Bool) where
    -- The block of `submit`. Each `?` in it returns from `submit` itself, so that what `submit` means to do
    -- with an error of the block, to close the timer and to set the state to `Failure`, is never reached.
    -- The handler runs on a worker: `early` is what it does, if it runs before the block sets the state.
    pub block : W → Calls → Option Handled → Sleep → Sleep × Result (Unit {0}) SleepError
    unfolding run_early
    block waker calls early s = elim calls.settime [
      | err errno ↦ (s, err (timer_set_error errno))
      | ok _ ↦
          if calls.registered
          then (
            record (run_early early
                (record s { handler = some waker; armed = arms s.secs s.nanos })) {
                  state = pending;
                },
            ok tt,
          )
          else (s, err timer_poll_error)
    ]

    pub submit : W → Calls → Option Handled → Sleep → Sleep × Result (Unit {0}) SleepError
    unfolding block
    submit waker calls early s = elim calls.create [
      | err errno ↦ (s, err (timer_create_error errno))
      | ok _ ↦ block waker calls early s
    ]

    pub submitted : Sleep × Result (Unit {0}) SleepError → Sleep × Poll
    submitted (s, ok _) = (s, is_pending)
    submitted (s, err e) = (s, ready (err e))

    pub poll_in : SleepState → W → Calls → Option Handled → Sleep → Sleep × Poll
    unfolding submit submitted
    poll_in not_submitted waker calls early s = submitted (submit waker calls early s)
    poll_in pending waker calls early s = (s, is_pending)
    poll_in complete waker calls early s = (s, ready (ok tt))
    poll_in failure waker calls early s = (s, ready (err timer_poll_error))

    unfoldable pub poll : W → Calls → Option Handled → Sleep → Sleep × Poll
    unfolding poll_in
    poll waker calls early s = poll_in s.state waker calls early s
