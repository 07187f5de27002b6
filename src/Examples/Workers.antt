-- ===== src/Examples/Workers.antt =====
-- Runs of src/pool.rs, src/worker/state.rs and src/events/poller/registry.rs on concrete inputs.
use cl_async.Base.{
  ℕ, ◌+◌, ◌≡◌, refl, ◌==◌, if◌then◌else◌, Bool, true, false, none, some, ok, function_dict, arith,
}
use cl_async.Base.Int.{ℤ, pos}
use cl_async.OsError.{OsError}
use cl_async.Events.Registry.{Epoll, Registry, register_interest}
use cl_async.Events.Registry.Keys.{IsFresh, expected, register_interest_lem}
use cl_async.Pool.{WorkerState, is_passed_over, get_next_worker}
use cl_async.Pool.RoundRobin.{get_next_worker_finds}

-- Of three workers, only worker 1 is started.
abbrev one_started : ℕ → ℕ → WorkerState
one_started t i = if i == 1 then WorkerState.idle else WorkerState.fresh

get_next_worker_finds_example : (j : ℕ) × (get_next_worker 3 3 (λ t. 5 + t) one_started ≡ some j)
unfolding is_passed_over
get_next_worker_finds_example = get_next_worker_finds 3 5 1 one_started (omega arith) (λ t. refl)

-- A kernel that watches one fd at most, and remembers it.
abbrev pub one_fd : Epoll
one_fd = record {
  Kernel = Bool;
  add = λ fd interest key k. (if k then some OsError.already_exists else none, true);
  modify = λ fd interest key k. (if k then none else some OsError.not_found, k);
  delete = λ fd k. (if k then none else some OsError.not_found, false);
}

abbrev pub unused : Registry one_fd (function_dict ℤ)
unused = record { kernel = false; next_key = 100; key_fds = λ _. none }

register_interest_lem_example :
    let (answer, r) = register_interest one_fd (function_dict ℤ) (pos 3) 1 unused in
    (answer ≡ ok 100)
    × (r.kernel ≡ true)
    × (r.key_fds 100 ≡ expected one_fd (function_dict ℤ) answer (pos 3) 100 none)
    × IsFresh one_fd (function_dict ℤ) r
register_interest_lem_example =
    register_interest_lem one_fd (function_dict ℤ) (pos 3) 1 100 unused (omega arith) (λ k le. refl)

abbrev watched : Registry one_fd (function_dict ℤ)
watched = record {
  kernel = true;
  next_key = 101;
  key_fds = (function_dict ℤ).insert (λ _. none) 100 (pos 3);
}
