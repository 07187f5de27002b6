-- ===== src/Pool.antt =====
-- src/pool.rs and src/worker/state.rs: which worker of the pool a call goes to.
--
-- `NEXT_ID` is a `usize`, shared by all calls. What the loop reads in its turns is a parameter: `drawn t`
-- is the value of `NEXT_ID` that turn `t` draws, and `state t i` the state of worker `i` then.
pub mod RoundRobin
use cl_async.Base.{
  ℕ, zero, suc, ◌+◌, ◌%◌, ◌==◌, ltb, Bool, true, false, if◌then◌else◌, Option, none, some,
}

pub data WorkerState : Type 0 where
  fresh starting idle busy stopping stopped : WorkerState

-- The discriminants of `WorkerState`, a `repr(u8)`; `fresh` is `WorkerState::None`.
pub state_byte : WorkerState → ℕ
state_byte WorkerState.fresh = 0
state_byte WorkerState.starting = 1
state_byte WorkerState.idle = 2
state_byte WorkerState.busy = 3
state_byte WorkerState.stopping = 4
state_byte WorkerState.stopped = 5

-- `From<u8> for WorkerState`; any other byte is undefined behaviour there, and `none` here.
pub state_from : ℕ → Option WorkerState
state_from byte =
    if byte == 0
    then some WorkerState.fresh
    else if byte == 1
    then some WorkerState.starting
    else if byte == 2
    then some WorkerState.idle
    else if byte == 3
    then some WorkerState.busy
    else if byte == 4
    then some WorkerState.stopping
    else if byte == 5
    then some WorkerState.stopped
    else none

-- The test of `get_next_worker` that goes on to the next worker.
unfoldable pub is_passed_over : WorkerState → Bool
is_passed_over WorkerState.fresh = true
is_passed_over WorkerState.stopped = true
is_passed_over WorkerState.stopping = true
is_passed_over other = false

-- `next_worker_id`, for the value of `NEXT_ID` that it draws.
unfoldable pub next_worker_id : (n_threads id : ℕ) → ℕ
next_worker_id n_threads id = id % n_threads

-- `workers` is the length of the vector.
module _ (n_threads workers : ℕ) (drawn : ℕ → ℕ) (state : ℕ → ℕ → WorkerState) where
  -- The loop of `get_next_worker` from turn `t` on, with as many turns left as the first argument says;
  -- `none` is `NextWorkerError`.
  unfoldable pub turns_from : ℕ → ℕ → Option ℕ
  unfolding next_worker_id is_passed_over
  turns_from zero t = none
  turns_from (suc left) t =
      let rest = turns_from left (suc t) in
      let i = next_worker_id n_threads (drawn t) in
      if ltb i workers then if is_passed_over (state t i) then rest else some i else none

  unfoldable pub get_next_worker : Option ℕ
  unfolding turns_from
  get_next_worker = turns_from n_threads 0
