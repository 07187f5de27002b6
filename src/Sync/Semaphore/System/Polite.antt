-- ===== src/Sync/Semaphore/System/Polite.antt =====
-- src/sync/semaphore.rs: runs with no hungry future neither lose a permit nor make one up.
use cl_async.Base.{
  ℕ, zero, suc, ◌<◌, ◌≡◌, refl, inl, inr, Bool, true, false, ltb, leb, ◌==◌, if◌then◌else◌, Fifo,
  Option, none, some, Option-cases, Bool-cases, List, [], ◌∷◌, get_elem?, All, All-set,
  All-get_elem?, arith,
}
use cl_async.Sync.Semaphore.{
  usize_mod, SemaphoreFutureState, polite, hungry, SemaphoreFuture, new, gathered, needed, Pc, head,
  take_all, drain, enqueue, Next, more, ready, pending, finish, try_drain, loaded, Inner, Outcome,
  sem_step, take_step,
}
use cl_async.Sync.Semaphore.System.Account.{surplus, surplus_of}
use cl_async.Sync.Semaphore.System.Totals.{total, AllFit, surplus_run, surplus_at, run-total}
use cl_async.Sync.Semaphore.System.{
  Agent, absent, parked, polling, acquired, holding, waking, Event, acquire, acquire_hungry, poll,
  step, drop_future, drop_permit, turn, after_step, release, drop_state, wake_round, settled,
  System, act, at_agent, run,
}

abbrev IsNotDrain : Pc → Type 0
IsNotDrain (drain queued permits) = ⊥
IsNotDrain pc = Unit

-- An agent whose future, if any, is a polite one.
abbrev pub IsPolite : Agent → Type 0
IsPolite (parked f) = f.state ≡ polite
IsPolite (polling f pc) = (f.state ≡ polite) × IsNotDrain pc
IsPolite (acquired f) = f.state ≡ polite
IsPolite a = Unit

abbrev pub IsPoliteEvent : Event → Type 0
IsPoliteEvent (acquire_hungry n) = ⊥
IsPoliteEvent e = Unit

abbrev IsPoliteNext : Next → Type 0
IsPoliteNext (more pc) = IsNotDrain pc
IsPoliteNext n = Unit

if-IsPoliteNext :
    (b : Bool) (x y : Next) → IsPoliteNext x → IsPoliteNext y → IsPoliteNext (if b then x else y)
if-IsPoliteNext true x y h k = h
if-IsPoliteNext false x y h k = k

finish-IsPoliteNext : (queued : Bool) → IsPoliteNext (finish queued)
unfolding finish
finish-IsPoliteNext true = tt
finish-IsPoliteNext false = tt

try_drain-IsPoliteNext :
    (st : SemaphoreFutureState) (queued : Bool) (permits : ℕ)
    → st ≡ polite
    → IsPoliteNext (try_drain st queued permits)
unfolding try_drain
try_drain-IsPoliteNext polite queued permits e = finish-IsPoliteNext queued
try_drain-IsPoliteNext (hungry count) queued permits e = cc

loaded-IsPoliteNext :
    (f : SemaphoreFuture) (queued : Bool) (permits : ℕ)
    → f.state ≡ polite
    → IsPoliteNext (loaded f queued permits)
unfolding loaded
loaded-IsPoliteNext f queued permits e =
    if-IsPoliteNext (leb (needed f) permits) (more (take_all queued permits)) _ tt
      (try_drain-IsPoliteNext f.state queued permits e)

module _ (W : Fifo ℕ) where
  after_step-IsPolite :
      (o : Outcome W) (n : Next)
      → o.next ≡ n
      → o.future.state ≡ polite
      → IsPoliteNext n
      → IsPolite (after_step W o).agent
  unfolding after_step
  after_step-IsPolite o (more pc) e h k = rw (e, after_step) (h, k)
  after_step-IsPolite o ready e h k = rw (e, after_step) h
  after_step-IsPolite o pending e h k = rw (e, after_step) h

  sem_step-polite :
      (me : ℕ) (s : Inner W) (f : SemaphoreFuture) (pc : Pc)
      → IsPolite (polling f pc)
      → ((sem_step W me s f pc).future.state ≡ polite) × IsPoliteNext (sem_step W me s f pc).next
  unfolding sem_step take_step
  sem_step-polite me s f (head queued) h = (h.0, loaded-IsPoliteNext f queued s.permits h.0)
  sem_step-polite me s f (take_all queued permits) h = elim (Bool-cases (s.permits == permits)) [
    | inl same ↦ rw same (h.0, tt)
    | inr other ↦ rw other (
      h.0,
      if-IsPoliteNext queued (try_drain f.state queued permits) (more (head false))
          (try_drain-IsPoliteNext f.state queued permits h.0) tt,
    )
  ]
  sem_step-polite me s f (drain queued permits) h = absurd h.1
  sem_step-polite me s f enqueue h = (h.0, tt)

  settled-IsPolite : (kept : Option ℕ) → IsPolite (settled kept)
  unfolding settled
  settled-IsPolite none = tt
  settled-IsPolite (some w) = tt

  drop_state-IsPolite :
      (st : SemaphoreFutureState) (kept : Option ℕ) (s : Inner W)
      → IsPolite (drop_state W st kept s).agent
  unfolding drop_state release
  drop_state-IsPolite polite kept s = settled-IsPolite kept
  drop_state-IsPolite (hungry count) kept s = elim (Bool-cases (ltb 0 count)) [
    | inl e ↦ rw e tt
    | inr e ↦ rw e (settled-IsPolite kept)
  ]

  wake_round-IsPolite :
      (rounds : ℕ) (kept : Option ℕ) (s : Inner W) → IsPolite (wake_round W rounds kept s).agent
  unfolding wake_round
  wake_round-IsPolite rounds kept s = elim (Option-cases (W.pop s.waker_queue)) [
    | inl e ↦ rw (e, wake_round) (settled-IsPolite kept)
    | inr (r, e) ↦ rw (e, wake_round) tt
  ]

  turn-IsPolite :
      (me : ℕ) (e : Event) (s : Inner W) (a : Agent)
      → IsPoliteEvent e
      → IsPolite a
      → IsPolite (turn W me e s a).agent
  unfolding turn release new
  turn-IsPolite me (acquire n) s absent ok h = refl
  turn-IsPolite me (acquire_hungry n) s absent ok h = absurd ok
  turn-IsPolite me poll s (parked f) ok h = (h, tt)
  turn-IsPolite me step s (polling f pc) ok h =
      let (st, nx) = sem_step-polite me s f pc h in
      after_step-IsPolite (sem_step W me s f pc) _ refl st nx
  turn-IsPolite me step s (waking zero kept) ok h = settled-IsPolite kept
  turn-IsPolite me step s (waking (suc rounds) kept) ok h = wake_round-IsPolite rounds kept s
  turn-IsPolite me drop_future s (parked f) ok h = drop_state-IsPolite f.state none s
  turn-IsPolite me drop_future s (acquired f) ok h =
      drop_state-IsPolite f.state (some f.desired_permits) s
  turn-IsPolite me drop_permit s (holding weight) ok h = tt
  turn-IsPolite me e s a ok h = h

  polite_gathers_nothing : (f : SemaphoreFuture) (n : Next) → f.state ≡ polite → surplus_of f n ≡ 0
  unfolding surplus_of gathered
  polite_gathers_nothing f ready e = ground arith
  polite_gathers_nothing f _ e = refl

  turn-surplus :
      (me : ℕ) (e : Event) (s : Inner W) (a : Agent) → IsPolite a → surplus W me e s a ≡ 0
  unfolding surplus
  turn-surplus me step s (polling f pc) h = polite_gathers_nothing f _ h.0
  turn-surplus me e s a h = refl

  act-IsPolite :
      (i : ℕ) (e : Event) (s : System W) (o : Option Agent)
      → get_elem? s.agents i ≡ o
      → IsPoliteEvent e
      → All IsPolite s.agents
      → All IsPolite (at_agent W i e s o).agents × (surplus_at W i e s o ≡ 0)
  unfolding at_agent surplus_at
  act-IsPolite i e s none found ok h = (h, refl)
  act-IsPolite i e s (some a) found ok h = (
    All-set IsPolite s.agents i _ h (turn-IsPolite i e s.inner a ok here),
    turn-surplus i e s.inner a here,
  )
    where
      here : IsPolite a
      here = All-get_elem? IsPolite s.agents i h found

  pub run-surplus :
      (es : List (ℕ × Event)) (s : System W)
      → All (λ r. IsPoliteEvent r.1) es
      → All IsPolite s.agents
      → surplus_run W es s ≡ 0
  unfolding surplus_run act
  run-surplus [] s ok h = refl
  run-surplus ((i, e) ∷ es) s ok h =
      let (h', none_here) = act-IsPolite i e s (get_elem? s.agents i) refl ok.0 h in
      omega (arith, run-surplus es (act W i e s) ok.1 h')

  -- With polite futures only, under every interleaving: the counter and the permits that the agents
  -- hold add up to the same number throughout.
  run-total_polite :
      (es : List (ℕ × Event)) (s : System W)
      → All (λ r. IsPoliteEvent r.1) es
      → All IsPolite s.agents
      → AllFit W s
      → total W s < usize_mod
      → total W (run W es s) ≡ total W s
  run-total_polite es s ok h fit small =
      let quiet = run-surplus es s ok h in
      let (_, sum) = run-total W es s fit (omega arith) in omega arith
