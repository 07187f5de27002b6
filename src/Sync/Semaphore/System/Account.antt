-- ===== src/Sync/Semaphore/System/Account.antt =====
-- src/sync/semaphore.rs: what becomes of the permits, under every interleaving.
use cl_async.Base.{
  ℕ, zero, suc, ◌+◌, ◌-◌, ◌≤◌, ◌<◌, ◌≡◌, ◌≢◌, refl, sym, ◌∙◌, ==_iff, inl, inr, Bool, true, false,
  ltb, leb, ◌==◌, if◌then◌else◌, min, Fifo, Option, none, some, Option-cases, Bool-cases, arith,
}
use cl_async.Sync.Semaphore.{
  usize_mod, SemaphoreFutureState, polite, hungry, SemaphoreFuture, new, new_hungry, gathered,
  needed, Pc, head, take_all, drain, enqueue, Next, more, ready, pending, finish, try_drain, loaded,
  Inner, Outcome, sem_step, take_step, drain_step,
}
use cl_async.Sync.Semaphore.System.Fit.{IsFit}
use cl_async.Sync.Semaphore.System.{
  Agent, absent, parked, polling, acquired, holding, waking, Event, acquire, acquire_hungry, poll,
  step, drop_future, drop_permit, turn, after_step, release, drop_state, wake_round, settled,
}

-- What the drops of an agent's future and permit still give back to the counter.
unfoldable pub weight_of : Option ℕ → ℕ
weight_of none = 0
weight_of (some w) = w

unfoldable pub claim : Agent → ℕ
unfolding gathered weight_of
claim absent = 0
claim (parked f) = gathered f.state
claim (polling f pc) = gathered f.state
claim (acquired f) = f.desired_permits + gathered f.state
claim (holding w) = w
claim (waking rounds kept) = weight_of kept

finish-ne-ready : (queued : Bool) → finish queued ≢ ready
unfolding finish
finish-ne-ready true = ground arith
finish-ne-ready false = ground arith

try_drain-ne-ready :
    (st : SemaphoreFutureState) (queued : Bool) (permits : ℕ) → try_drain st queued permits ≢ ready
unfolding try_drain
try_drain-ne-ready polite queued permits = finish-ne-ready queued
try_drain-ne-ready (hungry count) queued permits = ground (arith, finish-ne-ready queued)

if-ne-ready : (b : Bool) (x y : Next) → x ≢ ready → y ≢ ready → (if b then x else y) ≢ ready
if-ne-ready true x y h k = h
if-ne-ready false x y h k = k

loaded-ne-ready :
    (f : SemaphoreFuture) (queued : Bool) (permits : ℕ) → loaded f queued permits ≢ ready
unfolding loaded
loaded-ne-ready f queued permits =
    if-ne-ready (leb (needed f) permits) (more (take_all queued permits)) _ (ground arith)
      (try_drain-ne-ready f.state queued permits)

zero_of_ltb : (n : ℕ) → ltb 0 n ≡ false → n ≡ 0
zero_of_ltb n h = ground arith

drained : (p g permits : ℕ) → p ≡ permits → 0 + gathered (hungry (g + permits)) ≡ p + g
unfolding gathered
drained p g permits e = omega arith

-- The permits that an access makes out of nothing: a future that completes keeps its count.
unfoldable pub surplus_of : SemaphoreFuture → Next → ℕ
unfolding gathered
surplus_of f ready = min (gathered f.state) f.desired_permits
surplus_of f other = 0

module _ (W : Fifo ℕ) where
  unfoldable pub surplus : ℕ → Event → Inner W → Agent → ℕ
  unfolding surplus_of
  surplus me step s (polling f pc) = surplus_of f (sem_step W me s f pc).next
  surplus me e s a = 0

  after_step-claim :
      (o : Outcome W) (n : Next)
      → o.next ≡ n
      → n ≢ ready
      → (claim (after_step W o).agent ≡ gathered o.future.state) × (surplus_of o.future n ≡ 0)
  unfolding after_step claim surplus_of
  after_step-claim o (more pc) e h = rw (e, after_step, claim) (refl, refl)
  after_step-claim o ready e h = absurd (h refl)
  after_step-claim o pending e h = rw (e, after_step, claim) (refl, refl)

  after_step-inner :
      (o : Outcome W) (n : Next) → o.next ≡ n → (after_step W o).inner.permits ≡ o.inner.permits
  unfolding after_step
  after_step-inner o (more pc) e = rw (e, after_step)
  after_step-inner o ready e = rw (e, after_step)
  after_step-inner o pending e = rw (e, after_step)

  -- An access that does not complete: what the counter loses, the future gains.
  keeps :
      (s : Inner W) (f : SemaphoreFuture) (o : Outcome W)
      → o.next ≢ ready
      → surplus_of f o.next ≡ surplus_of o.future o.next
      → o.inner.permits + gathered o.future.state ≡ s.permits + gathered f.state
      → o.inner.permits + claim (after_step W o).agent
        ≡ s.permits + gathered f.state + surplus_of f o.next
  keeps s f o h e k = let c = after_step-claim o o.next refl h in omega arith

  surplus_of-zero : (f : SemaphoreFuture) (n : Next) → n ≢ ready → surplus_of f n ≡ 0
  unfolding surplus_of
  surplus_of-zero f ready h = absurd (h refl)
  surplus_of-zero f _ h = refl

  -- A completion that takes what it needs.
  completes :
      (p : ℕ) (s : Inner W) (f : SemaphoreFuture) (o : Outcome W)
      → o.next ≡ ready
      → o.future ≡ f
      → o.inner.permits ≡ p - needed f
      → s.permits ≡ p
      → needed f ≤ p
      → o.inner.permits + claim (after_step W o).agent
        ≡ s.permits + gathered f.state + surplus_of f o.next
  unfolding after_step claim surplus_of needed
  completes p s f o e g k same fit = rw (e, after_step, surplus_of) (rw g (omega arith))

  take_step-claim :
      (permits : ℕ) (s : Inner W) (f : SemaphoreFuture) (queued : Bool)
      → needed f ≤ permits
      → let o = take_step W permits s f queued in
        o.inner.permits + claim (after_step W o).agent
        ≡ s.permits + gathered f.state + surplus_of f o.next
  unfolding take_step
  take_step-claim permits s f queued fit = elim (Bool-cases (s.permits == permits)) [
    | inl same ↦ rw same (
        completes permits s f
          (record { inner = record s { permits = permits - needed f }; future = f; next = ready })
          refl refl refl (ground arith) fit)
    | inr other ↦ rw other (
        keeps s f _
          (if-ne-ready queued _ _ (try_drain-ne-ready f.state queued permits) (ground arith)) refl
          refl)
  ]

  drain_step-claim :
      (permits : ℕ) (s : Inner W) (f : SemaphoreFuture) (queued : Bool)
      → let o = drain_step W permits s f queued in
        o.inner.permits + claim (after_step W o).agent
        ≡ s.permits + gathered f.state + surplus_of f o.next
  unfolding drain_step
  drain_step-claim permits s f queued = elim (Bool-cases (s.permits == permits)) [
    | inl same ↦ rw same (
        keeps s f
          (record {
            inner = record s { permits = 0 };
            future = record f { state = hungry (gathered f.state + permits) };
            next = finish queued;
          })
          (finish-ne-ready queued)
          (surplus_of-zero f _ (finish-ne-ready queued)
            ∙ sym (surplus_of-zero _ _ (finish-ne-ready queued)))
          (drained s.permits (gathered f.state) permits ((==_iff _ _).0 same)))
    | inr other ↦
        rw other
          (keeps s f _ (if-ne-ready queued _ _ (finish-ne-ready queued) (ground arith)) refl refl)
  ]

  -- One access of a poll, whatever the others did since the last one: the counter and what the
  -- agent will give back add up as before, but for the surplus of a completion.
  sem_step-claim :
      (me : ℕ) (s : Inner W) (f : SemaphoreFuture) (pc : Pc)
      → IsFit (polling f pc)
      → let o = sem_step W me s f pc in
        o.inner.permits + claim (after_step W o).agent
        ≡ s.permits + gathered f.state + surplus_of f o.next
  unfolding sem_step
  sem_step-claim me s f (head queued) fit =
      keeps s f _ (loaded-ne-ready f queued s.permits) refl refl
  sem_step-claim me s f (take_all queued permits) fit = take_step-claim permits s f queued fit
  sem_step-claim me s f (drain queued permits) fit = drain_step-claim permits s f queued
  sem_step-claim me s f enqueue fit = keeps s f _ (ground arith) refl refl

  release-claim :
      (n : ℕ) (kept : Option ℕ) (s : Inner W)
      → s.permits + n < usize_mod
      → (release W n kept s).inner.permits + claim (release W n kept s).agent
        ≡ s.permits + n + weight_of kept
  unfolding release claim
  release-claim n kept s h = omega arith

  settled-claim : (kept : Option ℕ) → claim (settled kept) ≡ weight_of kept
  unfolding settled claim
  settled-claim none = refl
  settled-claim (some w) = refl

  drop_state-claim :
      (st : SemaphoreFutureState) (kept : Option ℕ) (s : Inner W)
      → s.permits + gathered st < usize_mod
      → (drop_state W st kept s).inner.permits + claim (drop_state W st kept s).agent
        ≡ s.permits + gathered st + weight_of kept
  unfolding drop_state gathered
  drop_state-claim polite kept s h = omega (arith, settled-claim kept)
  drop_state-claim (hungry count) kept s h = elim (Bool-cases (ltb 0 count)) [
    | inl some_left ↦ rw some_left (release-claim count kept s h)
    | inr none_left ↦ rw none_left (omega (arith, settled-claim kept, zero_of_ltb count none_left))
  ]

  wake_round-claim :
      (rounds : ℕ) (kept : Option ℕ) (s : Inner W)
      → (wake_round W rounds kept s).inner.permits + claim (wake_round W rounds kept s).agent
        ≡ s.permits + weight_of kept
  unfolding wake_round claim
  wake_round-claim rounds kept s = elim (Option-cases (W.pop s.waker_queue)) [
    | inl e ↦ rw (e, wake_round) (omega (arith, settled-claim kept))
    | inr (r, e) ↦ rw (e, wake_round) refl
  ]

  -- Every event: the counter and the agent's claim add up as before, but for the surplus.
  pub turn-claim :
      (me : ℕ) (e : Event) (s : Inner W) (a : Agent)
      → IsFit a
      → s.permits + claim a < usize_mod
      → (turn W me e s a).inner.permits + claim (turn W me e s a).agent
        ≡ s.permits + claim a + surplus me e s a
  unfolding turn claim surplus new new_hungry
  turn-claim me (acquire n) s absent fit small = omega arith
  turn-claim me (acquire_hungry n) s absent fit small = omega arith
  turn-claim me poll s (parked f) fit small = omega arith
  turn-claim me step s (polling f pc) fit small = omega (
    arith,
    sem_step-claim me s f pc fit,
    after_step-inner (sem_step W me s f pc) (sem_step W me s f pc).next refl,
  )
  turn-claim me step s (waking zero kept) fit small = omega (arith, settled-claim kept)
  turn-claim me step s (waking (suc rounds) kept) fit small =
      omega (arith, wake_round-claim rounds kept s)
  turn-claim me drop_future s (parked f) fit small =
      omega (arith, drop_state-claim f.state none s (omega arith))
  turn-claim me drop_future s (acquired f) fit small =
      omega (arith, drop_state-claim f.state (some f.desired_permits) s (omega arith))
  turn-claim me drop_permit s (holding weight) fit small =
      omega (arith, release-claim weight none s small)
  turn-claim me e s a fit small = omega arith
