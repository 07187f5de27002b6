-- ===== src/Sync/Semaphore/System/Totals.antt =====
-- src/sync/semaphore.rs: the permits of a whole run, under every interleaving.
use cl_async.Base.{
  ℕ, ◌+◌, ◌<◌, ◌≡◌, refl, Fifo, Option, none, some, List, [], ◌∷◌, get_elem?, sum_of, sum_of-set,
  get_elem?-le-sum_of, All, All-set, All-get_elem?, arith,
}
use cl_async.Sync.Semaphore.{usize_mod}
use cl_async.Sync.Semaphore.System.Fit.{IsFit, turn-IsFit}
use cl_async.Sync.Semaphore.System.Account.{claim, surplus, turn-claim}
use cl_async.Sync.Semaphore.System.{Agent, Event, turn, System, act, at_agent, run}

module _ (W : Fifo ℕ) where
  -- The counter, and all that the agents will still give back to it.
  unfoldable pub total : System W → ℕ
  total s = s.inner.permits + sum_of claim s.agents

  abbrev pub AllFit : System W → Type 0
  AllFit s = All IsFit s.agents

  unfoldable pub surplus_at : ℕ → Event → System W → Option Agent → ℕ
  surplus_at i e s none = 0
  surplus_at i e s (some a) = surplus W i e s.inner a

  -- The permits that a run makes out of nothing.
  unfoldable pub surplus_run : List (ℕ × Event) → System W → ℕ
  unfolding surplus_at
  surplus_run [] s = 0
  surplus_run ((i, e) ∷ es) s =
      surplus_at i e s (get_elem? s.agents i) + surplus_run es (act W i e s)

  at_agent-total :
      (i : ℕ) (e : Event) (s : System W) (o : Option Agent)
      → get_elem? s.agents i ≡ o
      → AllFit s
      → total s < usize_mod
      → AllFit (at_agent W i e s o) × (total (at_agent W i e s o) ≡ total s + surplus_at i e s o)
  unfolding at_agent total surplus_at
  at_agent-total i e s none found fit small = (fit, omega arith)
  at_agent-total i e s (some a) found fit small = (
    All-set IsFit s.agents i _ fit (turn-IsFit W i e s.inner a here),
    omega (
      arith,
      turn-claim W i e s.inner a here (omega (arith, get_elem?-le-sum_of claim s.agents i a found)),
      sum_of-set claim s.agents i a (turn W i e s.inner a).agent found,
    ),
  )
    where
      here : IsFit a
      here = All-get_elem? IsFit s.agents i fit found

  act-total :
      (i : ℕ) (e : Event) (s : System W)
      → AllFit s
      → total s < usize_mod
      → AllFit (act W i e s)
        × (total (act W i e s) ≡ total s + surplus_at i e s (get_elem? s.agents i))
  unfolding act
  act-total i e s fit small = at_agent-total i e s (get_elem? s.agents i) refl fit small

  -- After any interleaving, the counter and what is still to be given back add up to what they
  -- were, and the surplus of the hungry futures that completed.
  pub run-total :
      (es : List (ℕ × Event)) (s : System W)
      → AllFit s
      → total s + surplus_run es s < usize_mod
      → AllFit (run W es s) × (total (run W es s) ≡ total s + surplus_run es s)
  unfolding run surplus_run
  run-total [] s fit small = (fit, omega arith)
  run-total ((i, e) ∷ es) s fit small =
      let (fit', step) = act-total i e s fit (omega arith) in
      let (last, rest) = run-total es (act W i e s) fit' (omega arith) in (last, omega arith)
