-- ===== src/Sync/Semaphore/Waking.antt =====
-- src/sync/semaphore.rs: whom `add_permits` wakes, and when a poll has queued its waker.
use cl_async.Base.{
  ℕ, zero, suc, ◌+◌, ◌%◌, ◌≤◌, ◌≡◌, refl, subst, ap, inl, inr, Bool, true, false, ltb, leb, ◌==◌,
  if◌then◌else◌, Fifo, pop_cases, none, some, Bool-cases, List, [], ◌∷◌, take, drop, arith,
}
use cl_async.Sync.Semaphore.{
  usize_mod, SemaphoreFutureState, polite, hungry, SemaphoreFuture, needed, Pc, head, take_all,
  drain, enqueue, Next, more, ready, pending, finish, try_drain, loaded, Inner, sem_step, take_step,
  drain_step, add_step,
}

module _ (W : Fifo ℕ) where
  -- The loop of `add_permits`: the rest of the queue, and the wakers called, in order.
  pub wake_loop : ℕ → W.Queue → W.Queue × List ℕ
  wake_loop zero q = (q, [])
  wake_loop (suc rounds) q = elim (W.pop q) [
    | none ↦ (q, [])
    | some r ↦ let rest = wake_loop rounds r.1 in (rest.0, r.0 ∷ rest.1)
  ]

  -- `SemaphoreInner::add_permits`.
  pub add_permits : ℕ → Inner W → Inner W × List ℕ
  unfolding add_step wake_loop
  add_permits n s =
      let woken = wake_loop n s.waker_queue in
      (record (add_step W n s) { waker_queue = woken.0 }, woken.1)

  wake_loop_lem :
      (n : ℕ) (q : W.Queue)
      → ((wake_loop n q).1 ≡ take n (W.contents q))
        × (W.contents (wake_loop n q).0 ≡ drop n (W.contents q))
  unfolding wake_loop
  wake_loop_lem zero q = (refl, refl)
  wake_loop_lem (suc n) q = elim (pop_cases W q) [
    | inl (e, h) ↦ rw (e, wake_loop) (rw h (refl, refl))
    | inr (a, r, e, h) ↦
        rw (e, wake_loop) (rw h (ap (λ l. a ∷ l) (wake_loop_lem n r).0, (wake_loop_lem n r).1))
  ]

  -- `add_permits(n)` raises the counter by `n` (modulo 2^64) and wakes the `n` oldest waiters, or
  -- all of them if there are fewer, oldest first; the others stay queued in their order.
  pub add_permits_lem :
      (n : ℕ) (s : Inner W)
      → let (t, woken) = add_permits n s in
        (t.permits ≡ (s.permits + n) % usize_mod)
        × (woken ≡ take n (W.contents s.waker_queue))
        × (W.contents t.waker_queue ≡ drop n (W.contents s.waker_queue))
  unfolding add_permits
  add_permits_lem n s = let (woken, left) = wake_loop_lem n s.waker_queue in (refl, woken, left)

-- The flag `queued` of `sem_fut`, where it is live.
queued_at : Pc → Bool
queued_at (head queued) = queued
queued_at (take_all queued permits) = queued
queued_at (drain queued permits) = queued
queued_at enqueue = false

-- What a step may lead to from a place with this flag, other than by a push.
IsNext : Bool → Next → Type 0
unfolding queued_at
IsNext b (more pc) = queued_at pc ≡ b
IsNext b ready = Unit
IsNext b pending = b ≡ true

if-IsNext : (q b : Bool) (x y : Next) → IsNext q x → IsNext q y → IsNext q (if b then x else y)
if-IsNext q true x y h k = h
if-IsNext q false x y h k = k

finish-IsNext : (queued : Bool) → IsNext queued (finish queued)
unfolding finish IsNext
finish-IsNext true = refl
finish-IsNext false = refl

try_drain-IsNext :
    (st : SemaphoreFutureState) (queued : Bool) (permits : ℕ)
    → IsNext queued (try_drain st queued permits)
unfolding try_drain IsNext
try_drain-IsNext polite queued permits = finish-IsNext queued
try_drain-IsNext (hungry count) queued permits =
    if-IsNext queued (ltb 0 permits) (more (drain queued permits)) _ refl (finish-IsNext queued)

loaded-IsNext :
    (f : SemaphoreFuture) (queued : Bool) (permits : ℕ) → IsNext queued (loaded f queued permits)
unfolding loaded IsNext
loaded-IsNext f queued permits =
    if-IsNext queued (leb (needed f) permits) (more (take_all queued permits)) _ refl
      (try_drain-IsNext f.state queued permits)

-- A failed compare-exchange: on with the body if the waker is queued, else from the top.
retry-IsNext :
    (queued : Bool) (n : Next)
    → IsNext queued n
    → IsNext queued (if queued then n else more (head false))
unfolding IsNext
retry-IsNext true n h = h
retry-IsNext false n h = refl

abbrev after_push : Pc → Bool
after_push enqueue = true
after_push pc = queued_at pc

abbrev pub pushes_at : Pc → ℕ
pushes_at enqueue = 1
pushes_at pc = 0

abbrev flag_count : Bool → ℕ
flag_count true = 1
flag_count false = 0

flag_count-le : (b : Bool) → flag_count b ≤ 1
flag_count-le true = omega arith
flag_count-le false = omega arith

next_pending : (b : Bool) (n : Next) → IsNext b n → n ≡ pending → b ≡ true
next_pending b n h e = unfold IsNext in subst (IsNext b) e h

module _ (W : Fifo ℕ) where
  sem_step-IsNext :
      (me : ℕ) (s : Inner W) (f : SemaphoreFuture) (pc : Pc)
      → IsNext (after_push pc) (sem_step W me s f pc).next
  unfolding sem_step take_step drain_step IsNext
  sem_step-IsNext me s f (head queued) = loaded-IsNext f queued s.permits
  sem_step-IsNext me s f (take_all queued permits) = elim (Bool-cases (s.permits == permits)) [
    | inl same ↦ rw same tt
    | inr other ↦ rw other (retry-IsNext queued _ (try_drain-IsNext f.state queued permits))
  ]
  sem_step-IsNext me s f (drain queued permits) = elim (Bool-cases (s.permits == permits)) [
    | inl same ↦ rw same (finish-IsNext queued)
    | inr other ↦ rw other (retry-IsNext queued _ (finish-IsNext queued))
  ]
  sem_step-IsNext me s f enqueue = refl

  -- A poll by `me` that has pushed its waker `pushes` times, with any changes that others make to
  -- the shared state between its accesses.
  pub data Polled (me : ℕ) : ℕ → Inner W → SemaphoreFuture → Pc → Type 0 where
    begins : (s : Inner W) (f : SemaphoreFuture) → Polled me 0 s f (head false)
    others :
        {n : ℕ} {s : Inner W} {f : SemaphoreFuture} {pc : Pc} (t : Inner W)
        → Polled me n s f pc
        → Polled me n t f pc
    access :
        {n m : ℕ} {s : Inner W} {f : SemaphoreFuture} {pc pc' : Pc}
        → Polled me n s f pc
        → (sem_step W me s f pc).next ≡ more pc'
        → m ≡ n + pushes_at pc
        → Polled me m (sem_step W me s f pc).inner (sem_step W me s f pc).future pc'

  next_flag : (b : Bool) (n : Next) (pc : Pc) → IsNext b n → n ≡ more pc → queued_at pc ≡ b
  next_flag b n pc h e = unfold IsNext in subst (IsNext b) e h

  push_count : (pc : Pc) → flag_count (queued_at pc) + pushes_at pc ≡ flag_count (after_push pc)
  unfolding queued_at
  push_count (head queued) = omega arith
  push_count (take_all queued permits) = omega arith
  push_count (drain queued permits) = omega arith
  push_count enqueue = omega arith

  Polled-count :
      {me n : ℕ} {s : Inner W} {f : SemaphoreFuture} {pc : Pc}
      → Polled me n s f pc
      → n ≡ flag_count (queued_at pc)
  unfolding queued_at
  Polled-count (begins s f) = refl
  Polled-count (others t p) = Polled-count p
  Polled-count (access {s = s} {f = f} {pc = pc} {pc' = pc'} p e m) =
      let flag = next_flag (after_push pc) _ pc' (sem_step-IsNext _ s f pc) e in
      omega (arith, Polled-count p, push_count pc, ap flag_count flag)

  pending_flag :
      (me : ℕ) (s : Inner W) (f : SemaphoreFuture) (pc : Pc)
      → (sem_step W me s f pc).next ≡ pending
      → queued_at pc ≡ true
  unfolding queued_at
  pending_flag me s f (head queued) e =
      next_pending queued _ (sem_step-IsNext me s f (head queued)) e
  pending_flag me s f (take_all queued permits) e =
      next_pending queued _ (sem_step-IsNext me s f (take_all queued permits)) e
  pending_flag me s f (drain queued permits) e =
      next_pending queued _ (sem_step-IsNext me s f (drain queued permits)) e
  pending_flag me s f enqueue e = unfold sem_step in cc e

  -- However the others interfere, a poll pushes its waker at most once, and one that returns
  -- `Pending` has pushed it.
  pub poll_pushes :
      (me n : ℕ) (s : Inner W) (f : SemaphoreFuture) (pc : Pc)
      → Polled me n s f pc
      → (n ≤ 1) × ((sem_step W me s f pc).next ≡ pending → n ≡ 1)
  poll_pushes me n s f pc p = (omega (arith, Polled-count p, flag_count-le (queued_at pc)), last)
    where
      last : (sem_step W me s f pc).next ≡ pending → n ≡ 1
      last e = omega (arith, Polled-count p, ap flag_count (pending_flag me s f pc e))
