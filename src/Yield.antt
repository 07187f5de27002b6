-- ===== src/Yield.antt =====
-- src/yield.rs: a future that lets the other tasks run once.
use cl_async.Base.{ℕ, ◌≡◌, refl, Bool, true, false, List, [], ◌∷◌}

-- `YieldFuture::new`.
pub new : Bool
new = false

-- `YieldFuture::poll` with no other poll in between: `yielded` after it, whether it is ready, and the
-- wakers that it calls.
pub poll : ℕ → Bool → Bool × Bool × List ℕ
poll waker false = (true, false, waker ∷ [])
poll waker true = (true, true, [])

-- A fresh future is `Pending` once, and calls the waker of that poll; the next poll is `Ready`, calls
-- none and leaves the state as it is.
yields_once :
    (me other : ℕ)
    → let (first, finished, called) = poll me new in
      let (second, finished', called') = poll other first in
      (finished ≡ false)
      × (called ≡ me ∷ [])
      × (finished' ≡ true)
      × (called' ≡ [])
      × (second ≡ first)
unfolding poll new
yields_once me other = (refl, refl, refl, refl, refl)
