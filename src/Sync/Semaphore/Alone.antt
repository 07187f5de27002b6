-- ===== src/Sync/Semaphore/Alone.antt =====
-- src/sync/semaphore.rs: `sem_fut` run to its end with no other agent in between.
use cl_async.Base.{
  ℕ, zero, suc, ◌∙◌, ap, ap₂, ◌+◌, ◌-◌, ◌≡◌, refl, inl, inr, Bool, true, false, leb, ltb, ◌==◌,
  if◌then◌else◌, Fifo, Option, none, some, Bool-cases, ==_iff, arith,
}
use cl_async.Sync.Semaphore.{
  SemaphoreFutureState, polite, hungry, SemaphoreFuture, gathered, needed, Pc, head, take_all,
  drain, enqueue, Next, more, ready, pending, finish, loaded, Inner, Outcome, sem_step, take_step,
  drain_step,
}

==-refl : (n : ℕ) → (n == n) ≡ true
==-refl n = (==_iff n n).1 refl

abbrev calm : ℕ → SemaphoreFuture
calm n = record { desired_permits = n; state = polite }

abbrev eager : ℕ → ℕ → SemaphoreFuture
eager n count = record { desired_permits = n; state = hungry count }

abbrev eager_or_calm : ℕ → SemaphoreFutureState → SemaphoreFuture
eager_or_calm n st = record { desired_permits = n; state = st }

loaded-enough :
    (f : SemaphoreFuture) (queued : Bool) (permits : ℕ)
    → leb (needed f) permits ≡ true
    → loaded f queued permits ≡ more (take_all queued permits)
unfolding loaded
loaded-enough f queued permits e = ground arith

loaded-polite :
    (f : SemaphoreFuture) (queued : Bool) (permits : ℕ)
    → leb (needed f) permits ≡ false
    → f.state ≡ polite
    → loaded f queued permits ≡ finish queued
unfolding loaded
loaded-polite f queued permits e p = ground arith

loaded-hungry :
    (n count : ℕ) (queued : Bool) (permits : ℕ)
    → let f = eager n count in
      leb (needed f) permits ≡ false
      → ltb 0 permits ≡ true
      → loaded f queued permits ≡ more (drain queued permits)
unfolding loaded
loaded-hungry n count queued permits e p = ground arith

loaded-hungry_none :
    (n count : ℕ) (queued : Bool) (permits : ℕ)
    → let f = eager n count in
      leb (needed f) permits ≡ false
      → ltb 0 permits ≡ false
      → loaded f queued permits ≡ finish queued
unfolding loaded
loaded-hungry_none n count queued permits e p = ground arith

-- A hungry future that has drained the counter finds it empty in the second round.
drained :
    (n count permits : ℕ)
    → leb (needed (eager n count)) permits ≡ false
    → loaded (eager n (count + permits)) true 0 ≡ pending
unfolding loaded needed gathered finish
drained n count permits e = ground arith

module _ (W : Fifo ℕ) where
  follow : (Inner W → SemaphoreFuture → Pc → Option (Outcome W)) → Outcome W → Option (Outcome W)
  follow rest o = elim o.next [
    | more pc ↦ rest o.inner o.future pc
    | ready ↦ some o
    | pending ↦ some o
  ]

  -- The loop of `sem_fut`; `none` only if the fuel runs out.
  pub sem_fut : ℕ → ℕ → Inner W → SemaphoreFuture → Pc → Option (Outcome W)
  unfolding follow
  sem_fut zero me s f pc = none
  sem_fut (suc fuel) me s f pc = follow (sem_fut fuel me) (sem_step W me s f pc)

  -- What a poll does as one step: all that is needed, or else, for a hungry future, all that there
  -- is, and the waker goes to the queue.
  pub poll_at_once : ℕ → Inner W → SemaphoreFuture → Outcome W
  poll_at_once me s f =
      if leb (needed f) s.permits
      then record { inner = record s { permits = s.permits - needed f }; future = f; next = ready }
      else elim f.state [
        | polite ↦ record {
          inner = record s { waker_queue = W.push s.waker_queue me };
          future = f;
          next = pending;
        }
        | hungry count ↦ record {
          inner = record { permits = 0; waker_queue = W.push s.waker_queue me };
          future = record f { state = hungry (count + s.permits) };
          next = pending;
        }
      ]

  outcome : Inner W → SemaphoreFuture → Next → Outcome W
  outcome s f n = record { inner = s; future = f; next = n }

  goes_on :
      (k me : ℕ) (s s' : Inner W) (f f' : SemaphoreFuture) (pc pc' : Pc)
      → sem_step W me s f pc ≡ outcome s' f' (more pc')
      → sem_fut (suc k) me s f pc ≡ sem_fut k me s' f' pc'
  unfolding sem_fut outcome
  goes_on k me s s' f f' pc pc' e = ap (follow (sem_fut k me)) e

  waits :
      (k me : ℕ) (s s' : Inner W) (f f' : SemaphoreFuture) (pc : Pc)
      → sem_step W me s f pc ≡ outcome s' f' pending
      → sem_fut (suc k) me s f pc ≡ some (outcome s' f' pending)
  unfolding sem_fut outcome
  waits k me s s' f f' pc e = ap (follow (sem_fut k me)) e

  completes :
      (k me : ℕ) (s s' : Inner W) (f f' : SemaphoreFuture) (pc : Pc)
      → sem_step W me s f pc ≡ outcome s' f' ready
      → sem_fut (suc k) me s f pc ≡ some (outcome s' f' ready)
  unfolding sem_fut outcome
  completes k me s s' f f' pc e = ap (follow (sem_fut k me)) e

  load :
      (me : ℕ) (s : Inner W) (f : SemaphoreFuture) (queued : Bool) (n : Next)
      → loaded f queued s.permits ≡ n
      → sem_step W me s f (head queued) ≡ outcome s f n
  unfolding sem_step outcome
  load me s f queued n e = rw e

  take_own :
      (me : ℕ) (s : Inner W) (f : SemaphoreFuture) (queued : Bool)
      → sem_step W me s f (take_all queued s.permits)
        ≡ outcome (record s { permits = s.permits - needed f }) f ready
  unfolding sem_step outcome take_step
  take_own me s f queued = rw (==-refl s.permits)

  drain_own :
      (me n count : ℕ) (s : Inner W) (queued : Bool)
      → sem_step W me s (eager n count) (drain queued s.permits)
        ≡ outcome (record s { permits = 0 }) (eager n (count + s.permits)) (finish queued)
  unfolding sem_step outcome drain_step gathered
  drain_own me n count s queued = rw (==-refl s.permits)

  push_own :
      (me : ℕ) (s : Inner W) (f : SemaphoreFuture)
      → sem_step W me s f enqueue
        ≡ outcome (record s { waker_queue = W.push s.waker_queue me }) f (more (head true))
  unfolding sem_step outcome
  push_own me s f = refl

  enough :
      (k me : ℕ) (s : Inner W) (f : SemaphoreFuture)
      → leb (needed f) s.permits ≡ true
      → sem_fut (suc (suc k)) me s f (head false)
        ≡ some (outcome (record s { permits = s.permits - needed f }) f ready)
  enough k me s f e =
      goes_on (suc k) me s s f f _ _ (load me s f false _ (loaded-enough f false s.permits e))
      ∙ completes k me s _ f f _ (take_own me s f false)

  -- The waker is pushed, and the second round finds no more.
  queues :
      (k me : ℕ) (s : Inner W) (f : SemaphoreFuture)
      → loaded f true s.permits ≡ pending
      → sem_fut (suc (suc k)) me s f enqueue
        ≡ some (outcome (record s { waker_queue = W.push s.waker_queue me }) f pending)
  queues k me s f again =
      goes_on (suc k) me s _ f f _ _ (push_own me s f)
      ∙ waits k me _ _ f f _
          (load me (record s { waker_queue = W.push s.waker_queue me }) f true _ again)

  short_polite :
      (k me n : ℕ) (s : Inner W)
      → leb (needed (calm n)) s.permits ≡ false
      → sem_fut (suc (suc (suc (suc k)))) me s (calm n) (head false)
        ≡ some (outcome (record s { waker_queue = W.push s.waker_queue me }) (calm n) pending)
  unfolding finish
  short_polite k me n s e =
      goes_on (suc (suc (suc k))) me s s (calm n) (calm n) (head false) enqueue
        (load me s (calm n) false _ (loaded-polite (calm n) false s.permits e refl))
      ∙ queues (suc k) me s (calm n) (loaded-polite (calm n) true s.permits e refl)

  empty_handed :
      (n count p : ℕ) (q : W.Queue)
      → p ≡ 0
      → some (outcome (record { permits = p; waker_queue = q }) (eager n count) pending)
        ≡ some (outcome (record { permits = 0; waker_queue = q }) (eager n (count + p)) pending)
  empty_handed n count p q e =
      ap₂ (λ a b. some (outcome (record { permits = a; waker_queue = q }) (eager n b) pending)) e
        (omega arith)

  short_hungry :
      (k me n count : ℕ) (s : Inner W)
      → leb (needed (eager n count)) s.permits ≡ false
      → sem_fut (suc (suc (suc (suc k)))) me s (eager n count) (head false)
        ≡ some (
            outcome
              (record { permits = 0; waker_queue = W.push s.waker_queue me })
              (eager n (count + s.permits))
              pending)
  unfolding finish
  short_hungry k me n count s e = elim (Bool-cases (ltb 0 s.permits)) [
    | inl left ↦
        goes_on (suc (suc (suc k))) me s s (eager n count) (eager n count) (head false)
          (drain false s.permits)
          (load me s (eager n count) false _ (loaded-hungry n count false s.permits e left))
        ∙ goes_on (suc (suc k)) me s (record s { permits = 0 }) (eager n count)
            (eager n (count + s.permits)) (drain false s.permits) enqueue
            (drain_own me n count s false)
        ∙ queues k me (record s { permits = 0 }) (eager n (count + s.permits))
            (drained n count s.permits e)
    | inr gone ↦
        goes_on (suc (suc (suc k))) me s s (eager n count) (eager n count) (head false) enqueue
          (load me s (eager n count) false _ (loaded-hungry_none n count false s.permits e gone))
        ∙ queues (suc k) me s (eager n count) (loaded-hungry_none n count true s.permits e gone)
        ∙ empty_handed n count s.permits (W.push s.waker_queue me) (ground arith)
  ]

  by_state :
      (k me n : ℕ) (st : SemaphoreFutureState) (s : Inner W)
      → let f = eager_or_calm n st in
        leb (needed f) s.permits ≡ false
        → sem_fut (suc (suc (suc (suc k)))) me s f (head false) ≡ some (poll_at_once me s f)
  unfolding poll_at_once outcome
  by_state k me n polite s e = rw e (short_polite k me n s e)
  by_state k me n (hungry count) s e = rw e (short_hungry k me n count s e)

  -- With no other agent in between, a poll ends within four accesses, and its result on every
  -- branch is that of `poll_at_once`.
  pub sem_fut-poll_at_once :
      (k me : ℕ) (s : Inner W) (f : SemaphoreFuture)
      → sem_fut (suc (suc (suc (suc k)))) me s f (head false) ≡ some (poll_at_once me s f)
  unfolding poll_at_once outcome
  sem_fut-poll_at_once k me s f = elim (Bool-cases (leb (needed f) s.permits)) [
    | inl e ↦ rw e (enough (suc (suc k)) me s f e)
    | inr e ↦ by_state k me f.desired_permits f.state s e
  ]
