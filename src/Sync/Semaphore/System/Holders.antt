-- ===== src/Sync/Semaphore/System/Holders.antt =====
-- src/sync/semaphore.rs: how many permits can be out at once, and how the drop of a hungry future
-- that has completed brings more of them into being.
use cl_async.Base.{
  ℕ, zero, suc, ◌+◌, ◌-◌, ◌≤◌, ◌<◌, ◌≡◌, ◌≢◌, refl, ap, [], Bool, ==_iff, lt→ltb, Fifo, some, List,
  ◌∷◌, get_elem?, sum_of, two-le-sum_of, get_elem?-le-sum_of, All, arith,
}
use cl_async.Sync.Semaphore.{
  usize_mod, SemaphoreFuture, hungry, gathered, needed, take_all, Inner, new_inner, sem_step,
  take_step, add_step,
}
use cl_async.Sync.Semaphore.System.Fit.{IsFit}
use cl_async.Sync.Semaphore.System.Account.{claim}
use cl_async.Sync.Semaphore.System.Totals.{total, AllFit, surplus_run, run-total}
use cl_async.Sync.Semaphore.System.Polite.{IsPolite, IsPoliteEvent, run-surplus}
use cl_async.Sync.Semaphore.System.{
  Agent, absent, polling, acquired, holding, waking, Event, step, drop_future, turn, after_step,
  drop_state, release, agents_of, start, run,
}

-- The weight of the permit that an agent holds.
unfoldable pub held : Agent → ℕ
held (acquired f) = f.desired_permits
held (holding w) = w
held (waking rounds (some w)) = w
held a = 0

held-le-claim : (a : Agent) → held a ≤ claim a
unfolding held claim
held-le-claim (acquired f) = omega arith
held-le-claim (holding w) = omega arith
held-le-claim (waking rounds (some w)) = omega arith
held-le-claim a = omega arith

sum_of-held : (xs : List Agent) → sum_of held xs ≤ sum_of claim xs
sum_of-held [] = omega arith
sum_of-held (x ∷ xs) = omega (arith, held-le-claim x, sum_of-held xs)

sum_of-absent : (n : ℕ) → sum_of claim (agents_of n) ≡ 0
unfolding claim agents_of
sum_of-absent zero = refl
sum_of-absent (suc n) = omega (arith, sum_of-absent n)

All-absent : (P : Agent → Type 0) (n : ℕ) → P absent → All P (agents_of n)
unfolding agents_of
All-absent P zero h = tt
All-absent P (suc n) h = (h, All-absent P n h)

held_one : (xs : List Agent) (i : ℕ) (a : Agent) → get_elem? xs i ≡ some a → held a ≤ sum_of held xs
held_one xs i a e = get_elem?-le-sum_of held xs i a e

module _ (W : Fifo ℕ) where
  start-AllFit : (agents permits : ℕ) → AllFit W (start W agents permits)
  unfolding start
  start-AllFit agents permits = All-absent IsFit agents tt

  start-AllPolite : (agents permits : ℕ) → All IsPolite (start W agents permits).agents
  unfolding start
  start-AllPolite agents permits = All-absent IsPolite agents tt

  start-total : (agents permits : ℕ) → total W (start W agents permits) ≡ permits
  unfolding total start new_inner
  start-total agents permits = omega (arith, sum_of-absent agents)

  -- The permits that are out, and those in the counter, are never more than the semaphore was made
  -- with, as long as no hungry future has completed after it gathered a part.
  pub held-le :
      (agents permits : ℕ) (es : List (ℕ × Event))
      → permits < usize_mod
      → surplus_run W es (start W agents permits) ≡ 0
      → let s = run W es (start W agents permits) in
        s.inner.permits + sum_of held s.agents ≤ permits
  unfolding total
  held-le agents permits es small quiet =
      let s = run W es (start W agents permits) in
      let (_, sum) =
        run-total W es (start W agents permits) (start-AllFit agents permits)
          (omega (arith, start-total agents permits)) in
      omega (arith, start-total agents permits, sum_of-held s.agents)

  -- With polite futures only, that holds for every run.
  pub held-le_polite :
      (agents permits : ℕ) (es : List (ℕ × Event))
      → permits < usize_mod
      → All (λ r. IsPoliteEvent r.1) es
      → let s = run W es (start W agents permits) in
        s.inner.permits + sum_of held s.agents ≤ permits
  held-le_polite agents permits es small ok =
      held-le agents permits es small (run-surplus W es _ ok (start-AllPolite agents permits))

  -- Exclusion: while one agent holds every permit, the others hold none and the counter is empty.
  pub all_held_excludes :
      (agents permits : ℕ) (es : List (ℕ × Event)) (i j : ℕ) (a b : Agent)
      → permits < usize_mod
      → surplus_run W es (start W agents permits) ≡ 0
      → get_elem? (run W es (start W agents permits)).agents i ≡ some a
      → get_elem? (run W es (start W agents permits)).agents j ≡ some b
      → i ≢ j
      → held a ≡ permits
      → (held b ≡ 0) × ((run W es (start W agents permits)).inner.permits ≡ 0)
  all_held_excludes agents permits es i j a b small quiet at_i at_j ne full =
      let s = run W es (start W agents permits) in
      let both = two-le-sum_of held s.agents i j a b ne at_i at_j in
      let most = held-le agents permits es small quiet in (omega arith, omega arith)

  -- A hungry future that completes after it gathered `count` permits: when it is dropped, its permit
  -- is out at its full weight, and `count` permits at least are free again.
  pub hungry_drop_frees :
      (me count : ℕ) (s : Inner W) (f : SemaphoreFuture) (queued : Bool)
      → f.state ≡ hungry count
      → 0 < count
      → needed f ≤ s.permits
      → s.permits - needed f + count < usize_mod
      → let t = turn W me step s (polling f (take_all queued s.permits)) in
        let u = turn W me drop_future t.inner t.agent in
        (held u.agent ≡ f.desired_permits) × (count ≤ u.inner.permits)
  unfolding turn sem_step take_step after_step drop_state release add_step held
  hungry_drop_frees me count s f queued e pos fit small =
      rw ((==_iff s.permits s.permits).1 refl, take_step)
        (rw (e, drop_state) (rw (lt→ltb 0 count pos) (refl, omega (arith, ap gathered e))))
