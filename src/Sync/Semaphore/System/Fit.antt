-- ===== src/Sync/Semaphore/System/Fit.antt =====
-- src/sync/semaphore.rs: a poll goes to the first compare-exchange only with enough permits seen.
use cl_async.Base.{
  ℕ, zero, suc, ◌+◌, ◌≤◌, ◌≡◌, refl, inl, inr, Bool, true, false, ltb, leb, leb→le, ◌==◌,
  if◌then◌else◌, Fifo, Option, none, some, Option-cases, Bool-cases,
}
use cl_async.Sync.Semaphore.{
  SemaphoreFutureState, polite, hungry, SemaphoreFuture, gathered, needed, Pc, head, take_all,
  drain, enqueue, Next, more, ready, pending, finish, try_drain, loaded, Inner, Outcome, sem_step,
  take_step, drain_step,
}
use cl_async.Sync.Semaphore.System.{
  Agent, absent, parked, polling, acquired, holding, waking, Event, acquire, acquire_hungry, poll,
  step, drop_future, drop_permit, turn, after_step, release, drop_state, wake_round, settled,
}

-- A poll stands before the first compare-exchange only with enough permits in sight.
abbrev pub IsFit : Agent → Type 0
IsFit (polling f (take_all queued permits)) = needed f ≤ permits
IsFit a = Unit

abbrev IsFitNext : SemaphoreFuture → Next → Type 0
IsFitNext f (more pc) = IsFit (polling f pc)
IsFitNext f n = Unit

if-IsFitNext :
    (f : SemaphoreFuture) (b : Bool) (x y : Next)
    → (b ≡ true → IsFitNext f x)
    → IsFitNext f y
    → IsFitNext f (if b then x else y)
if-IsFitNext f true x y h k = h refl
if-IsFitNext f false x y h k = k

finish-IsFitNext : (f : SemaphoreFuture) (queued : Bool) → IsFitNext f (finish queued)
unfolding finish
finish-IsFitNext f true = tt
finish-IsFitNext f false = tt

try_drain-IsFitNext :
    (f : SemaphoreFuture) (st : SemaphoreFutureState) (queued : Bool) (permits : ℕ)
    → IsFitNext f (try_drain st queued permits)
unfolding try_drain
try_drain-IsFitNext f polite queued permits = finish-IsFitNext f queued
try_drain-IsFitNext f (hungry count) queued permits =
    if-IsFitNext f (ltb 0 permits) (more (drain queued permits)) _ (λ _. tt)
      (finish-IsFitNext f queued)

loaded-IsFitNext :
    (f : SemaphoreFuture) (queued : Bool) (permits : ℕ) → IsFitNext f (loaded f queued permits)
unfolding loaded
loaded-IsFitNext f queued permits =
    if-IsFitNext f (leb (needed f) permits) (more (take_all queued permits)) _
      (leb→le (needed f) permits) (try_drain-IsFitNext f f.state queued permits)

module _ (W : Fifo ℕ) where
  after_step-IsFit :
      (o : Outcome W) (n : Next) → o.next ≡ n → IsFitNext o.future n → IsFit (after_step W o).agent
  unfolding after_step
  after_step-IsFit o (more pc) e h = rw (e, after_step) h
  after_step-IsFit o ready e h = rw (e, after_step) tt
  after_step-IsFit o pending e h = rw (e, after_step) tt

  sem_step-IsFitNext :
      (me : ℕ) (s : Inner W) (f : SemaphoreFuture) (pc : Pc)
      → IsFitNext (sem_step W me s f pc).future (sem_step W me s f pc).next
  unfolding sem_step take_step drain_step
  sem_step-IsFitNext me s f (head queued) = loaded-IsFitNext f queued s.permits
  sem_step-IsFitNext me s f (take_all queued permits) = elim (Bool-cases (s.permits == permits)) [
    | inl same ↦ rw same tt
    | inr other ↦ rw other (
        if-IsFitNext f queued (try_drain f.state queued permits) (more (head false))
          (λ _. try_drain-IsFitNext f f.state queued permits) tt)
  ]
  sem_step-IsFitNext me s f (drain queued permits) = elim (Bool-cases (s.permits == permits)) [
    | inl same ↦
        rw same (finish-IsFitNext (record f { state = hungry (gathered f.state + permits) }) queued)
    | inr other ↦ rw other (
        if-IsFitNext f queued (finish queued) (more (head false)) (λ _. finish-IsFitNext f queued)
          tt)
  ]
  sem_step-IsFitNext me s f enqueue = tt

  settled-IsFit : (kept : Option ℕ) → IsFit (settled kept)
  unfolding settled
  settled-IsFit none = tt
  settled-IsFit (some w) = tt

  drop_state-IsFit :
      (st : SemaphoreFutureState) (kept : Option ℕ) (s : Inner W)
      → IsFit (drop_state W st kept s).agent
  unfolding drop_state release
  drop_state-IsFit polite kept s = settled-IsFit kept
  drop_state-IsFit (hungry count) kept s = elim (Bool-cases (ltb 0 count)) [
    | inl e ↦ rw e tt
    | inr e ↦ rw e (settled-IsFit kept)
  ]

  wake_round-IsFit :
      (rounds : ℕ) (kept : Option ℕ) (s : Inner W) → IsFit (wake_round W rounds kept s).agent
  unfolding wake_round
  wake_round-IsFit rounds kept s = elim (Option-cases (W.pop s.waker_queue)) [
    | inl e ↦ rw (e, wake_round) (settled-IsFit kept)
    | inr (r, e) ↦ rw (e, wake_round) tt
  ]

  pub turn-IsFit :
      (me : ℕ) (e : Event) (s : Inner W) (a : Agent) → IsFit a → IsFit (turn W me e s a).agent
  unfolding turn release
  turn-IsFit me (acquire n) s absent h = tt
  turn-IsFit me (acquire_hungry n) s absent h = tt
  turn-IsFit me poll s (parked f) h = tt
  turn-IsFit me step s (polling f pc) h =
      after_step-IsFit (sem_step W me s f pc) _ refl (sem_step-IsFitNext me s f pc)
  turn-IsFit me step s (waking zero kept) h = settled-IsFit kept
  turn-IsFit me step s (waking (suc rounds) kept) h = wake_round-IsFit rounds kept s
  turn-IsFit me drop_future s (parked f) h = drop_state-IsFit f.state none s
  turn-IsFit me drop_future s (acquired f) h = drop_state-IsFit f.state (some f.desired_permits) s
  turn-IsFit me drop_permit s (holding weight) h = tt
  turn-IsFit me e s a h = h
