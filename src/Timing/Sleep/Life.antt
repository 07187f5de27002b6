-- ===== src/Timing/Sleep/Life.antt =====
-- src/timing/futures/sleep.rs: sleeps that end, and sleeps that never do.
use cl_async.Base.{
  ℕ, ◌≡◌, refl, ap, ◌∙◌, Bool, true, ◌&&◌, if◌then◌else◌, Option, none, some, ok, List, [], ◌∷◌,
  ◌++◌, All, arith,
}
use cl_async.Timing.Sleep.{
  pending, failure, complete, Poll, is_pending, Calls, Handled, Sleep, new, fire, poll, poll_in,
  run_early,
}

-- What happens to a sleep: a poll, or the end of the time.
pub data Event (W : Type 0) : Type 0 where
  polled : W → Calls → Option Handled → Event W
  fired : Handled → Event W

module _ (W : Type 0) (arms : (secs nanos : ℕ) → Bool) where
  abbrev happen : Event W → Sleep W → Sleep W × List Poll
  happen (polled waker calls early) s =
      let (s', p) = poll W arms waker calls early s in (s', p ∷ [])
  happen (fired r) s = (fire W r s, [])

  -- The sleep after events, and what the polls gave.
  abbrev pub run : List (Event W) → Sleep W → Sleep W × List Poll
  run [] s = (s, [])
  run (e ∷ es) s = let (s', ps) = happen e s in let (s'', qs) = run es s' in (s'', ps ++ qs)

  -- A pending sleep whose handler does not wait for an armed timer.
  IsStuck : Sleep W → Type 0
  IsStuck s = (s.state ≡ pending) × ((r : Handled) → fire W r s ≡ s)

  poll-pending :
      (waker : W) (calls : Calls) (early : Option Handled) (s : Sleep W)
      → s.state ≡ pending
      → poll W arms waker calls early s ≡ (s, is_pending)
  unfolding poll
  poll-pending waker calls early s h = ap (λ st. poll_in W arms st waker calls early s) h

  -- Its polls are all Pending, and it does not change.
  stuck_forever :
      (es : List (Event W)) (s : Sleep W)
      → IsStuck s
      → ((run es s).0 ≡ s) × All (λ p. p ≡ is_pending) (run es s).1
  unfolding IsStuck
  stuck_forever [] s h = (refl, tt)
  stuck_forever (polled waker calls early ∷ es) s h =
      rw (poll-pending waker calls early s h.0)
        (let (same, all) = stuck_forever es s h in (same, (refl, all)))
  stuck_forever (fired r ∷ es) s h = rw (h.1 r) (stuck_forever es s h)

  -- The calls of `submit` succeed.
  abbrev pub AreGood : Calls → Type 0
  AreGood calls = (calls.create ≡ ok tt) × (calls.settime ≡ ok tt) × (calls.registered ≡ true)

  -- What the first poll leaves, if its calls succeed.
  first_poll :
      (secs nanos : ℕ) (waker : W) (calls : Calls) (early : Option Handled)
      → AreGood calls
      → poll W arms waker calls early (new W secs nanos) ≡ (
        record (run_early W early
            (record (new W secs nanos) { handler = some waker; armed = arms secs nanos })) {
              state = pending;
            },
        is_pending,
      )
  unfolding poll new
  first_poll secs nanos waker calls early h = rw (h.0, h.1, h.2) refl

  abbrev after_first : ℕ → ℕ → W → Option Handled → Sleep W
  after_first secs nanos waker early =
      record (run_early W early
        (record (new W secs nanos) { handler = some waker; armed = arms secs nanos })) {
          state = pending;
        }

  -- A first poll whose sleep is then stuck.
  stuck_after :
      (secs nanos : ℕ) (waker : W) (calls : Calls) (early : Option Handled) (es : List (Event W))
      → AreGood calls
      → IsStuck (after_first secs nanos waker early)
      → ((run (polled waker calls early ∷ es) (new W secs nanos)).0.woken
          ≡ (after_first secs nanos waker early).woken)
        × All (λ p. p ≡ is_pending) (run (polled waker calls early ∷ es) (new W secs nanos)).1
  stuck_after secs nanos waker calls early es good stuck =
      rw (first_poll secs nanos waker calls early good) (
        let (same, all) = stuck_forever es (after_first secs nanos waker early) stuck in
        (ap (λ s. s.woken) same, (refl, all)))

  fire-no_handler : (r : Handled) (s : Sleep W) → s.handler ≡ none → fire W r s ≡ s
  unfolding fire
  fire-no_handler r s h = ground (arith, h)

  -- What the handler leaves, whatever its calls give.
  fire_armed :
      (r : Handled) (s : Sleep W) (waker : W)
      → s.armed ≡ true
      → s.handler ≡ some waker
      → ((fire W r s).handler ≡ none)
        × ((fire W r s).woken ≡ s.woken ++ waker ∷ [])
        × ((fire W r s).state ≡ (if r.read && r.closed then complete else failure))
  unfolding fire
  fire_armed r s waker armed h = ground (arith, armed, h)

  -- A sleep whose time ends before its first poll does, with a handler that has run by then, stays Pending
  -- in all polls from then on; its waker was called before.
  pub early_end_is_lost :
      (secs nanos : ℕ) (waker : W) (calls : Calls) (r : Handled) (es : List (Event W))
      → AreGood calls
      → arms secs nanos ≡ true
      → let (s, polls) = run (polled waker calls (some r) ∷ es) (new W secs nanos) in
        (s.woken ≡ waker ∷ []) × All (λ p. p ≡ is_pending) polls
  unfolding new run_early
  early_end_is_lost secs nanos waker calls r es good armed =
      let s = record (new W secs nanos) { handler = some waker; armed = arms secs nanos } in
      let (gone, woke, _) = fire_armed r s waker armed refl in
      let (same, all) = stuck_after secs nanos waker calls (some r) es good (
        unfold IsStuck in
        (refl, λ q. fire-no_handler q (after_first secs nanos waker (some r)) gone)) in
      (same ∙ woke, all)

  abbrev pub IsPoll : Event W → Type 0
  IsPoll (polled waker calls early) = Unit {0}
  IsPoll (fired r) = ⊥

  abbrev waiting : ℕ → ℕ → W → Sleep W
  waiting secs nanos waker = record {
    secs = secs;
    nanos = nanos;
    state = pending;
    handler = some waker;
    armed = arms secs nanos;
    woken = [];
  }
