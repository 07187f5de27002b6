-- ===== src/Sync/Mutex/Wakers.antt =====
-- src/sync/mutex.rs: a task that waits has its waker in the queue until the waker is called.
use cl_async.Base.{
  ℕ, zero, suc, ◌≡◌, ◌⊎◌, subst, refl, inl, inr, Bool, true, false, ◌==◌, ==_iff, Fifo, pop_cases,
  none, some, Bool-cases, List, [], ◌∷◌, ◌++◌, contains, contains-snoc, arith,
}
use cl_async.Sync.Mutex.{
  Pc, first_try, enqueue, second_try, Task, absent, created, polling, waiting, notified, guarded,
  unlocking, Event, lock, poll, step, drop_future, clone, drop_guard, notify, suspended,
  guards_left, Inner, Turn, quiet, check_lock, poll_step, wake_next, turn, System, update, wake,
  start, act, run,
}

-- A task that nobody has woken since it pushed its waker, and the wakers in the queue.
abbrev IsQueued : List ℕ → ℕ → Task → Type 0
IsQueued l i waiting = contains i l ≡ true
IsQueued l i (polling second_try false) = contains i l ≡ true
IsQueued l i t = Unit

IsQueued-mono :
    (l l' : List ℕ) (i : ℕ) (t : Task)
    → (contains i l ≡ true → contains i l' ≡ true)
    → IsQueued l i t
    → IsQueued l' i t
IsQueued-mono l l' i waiting k h = k h
IsQueued-mono l l' i (polling second_try false) k h = k h
IsQueued-mono l l' i t k h = tt

notify-IsQueued : (l : List ℕ) (i : ℕ) (t : Task) → IsQueued l i (notify t)
unfolding notify
notify-IsQueued l i waiting = tt
notify-IsQueued l i (polling second_try woken) = tt
notify-IsQueued l i t = tt

skip_head :
    (w j : ℕ) (l : List ℕ) → contains j (w ∷ l) ≡ true → (w == j) ≡ false → contains j l ≡ true
skip_head w j l h other = ground arith

module _ (W : Fifo ℕ) where
  -- What a turn of task `me` does to the queue.
  Effect : ℕ → Inner W → Turn W → Type 0
  Effect me s t =
      ((t.wakes ≡ none) × (W.contents t.inner.waker_queue ≡ W.contents s.waker_queue))
      ⊎ ((t.wakes ≡ none) × (W.contents t.inner.waker_queue ≡ W.contents s.waker_queue ++ me ∷ []))
      ⊎ ((w : ℕ) × (t.wakes ≡ some w)
          × (W.contents s.waker_queue ≡ w ∷ W.contents t.inner.waker_queue))

  abbrev Step : ℕ → Inner W → Turn W → Type 0
  Step me s t = Effect me s t × IsQueued (W.contents t.inner.waker_queue) me t.task

  check_lock-Step :
      (me : ℕ) (s : Inner W) (otherwise : Task)
      → IsQueued (W.contents s.waker_queue) me otherwise
      → Step me s (check_lock W s otherwise)
  unfolding check_lock Effect quiet
  check_lock-Step me s otherwise h = elim (Bool-cases s.locked) [
    | inl e ↦ rw e (inl (refl, refl), h)
    | inr e ↦ rw e (inl (refl, refl), tt)
  ]

  poll_step-Step :
      (me : ℕ) (s : Inner W) (pc : Pc) (woken : Bool)
      → IsQueued (W.contents s.waker_queue) me (polling pc woken)
      → Step me s (poll_step W me s pc woken)
  unfolding poll_step suspended quiet Effect
  poll_step-Step me s first_try woken h = check_lock-Step me s (polling enqueue woken) tt
  poll_step-Step me s enqueue true h = (inr (inl (refl, W.contents-push s.waker_queue me)), tt)
  poll_step-Step me s enqueue false h = (
    inr (inl (refl, W.contents-push s.waker_queue me)),
    rw (W.contents-push s.waker_queue me)
        (ground (arith, contains-snoc me me (W.contents s.waker_queue))),
  )
  poll_step-Step me s second_try true h = check_lock-Step me s notified tt
  poll_step-Step me s second_try false h = check_lock-Step me s waiting h

  wake_next-Step : (me n : ℕ) (s : Inner W) → Step me s (wake_next W s n)
  unfolding wake_next guards_left quiet Effect
  wake_next-Step me n s = elim (pop_cases W s.waker_queue) [
    | inl (e, h) ↦ rw (e, wake_next) (inl (refl, refl), left _ n)
    | inr (w, r, e, h) ↦ rw (e, wake_next) (inr (inr (w, refl, h)), left _ n)
  ]
    where
      left : (l : List ℕ) (n : ℕ) → IsQueued l me (guards_left n)
      left l zero = tt
      left l (suc n) = tt

  turn-Step :
      (me : ℕ) (e : Event) (s : Inner W) (a : Task)
      → IsQueued (W.contents s.waker_queue) me a
      → Step me s (turn W me e s a)
  unfolding turn quiet Effect
  turn-Step me lock s absent h = (inl (refl, refl), tt)
  turn-Step me poll s created h = (inl (refl, refl), tt)
  turn-Step me poll s waiting h = (inl (refl, refl), tt)
  turn-Step me poll s notified h = (inl (refl, refl), tt)
  turn-Step me step s (polling pc woken) h = poll_step-Step me s pc woken h
  turn-Step me step s (unlocking n) h = wake_next-Step me n s
  turn-Step me drop_future s created h = (inl (refl, refl), tt)
  turn-Step me drop_future s waiting h = (inl (refl, refl), tt)
  turn-Step me drop_future s notified h = (inl (refl, refl), tt)
  turn-Step me drop_guard s (guarded more) h = (inl (refl, refl), tt)
  turn-Step me clone s (guarded more) h = (inl (refl, refl), tt)
  turn-Step me e s a h = (inl (refl, refl), h)

  abbrev AllQueued : Inner W → (ℕ → Task) → Type 0
  AllQueued s f = (i : ℕ) → IsQueued (W.contents s.waker_queue) i (f i)

  updated :
      (i j : ℕ) (l : List ℕ) (a : Task) (f : ℕ → Task)
      → IsQueued l i a
      → ((i == j) ≡ false → IsQueued l j (f j))
      → IsQueued l j (update W f i a j)
  updated i j l a f own rest = elim (Bool-cases (i == j)) [
    | inl e ↦ rw e (subst (λ k. IsQueued l k a) ((==_iff i j).0 e) own)
    | inr e ↦ rw e (rest e)
  ]

  -- The turn, and then the call of the waker that it took out of the queue.
  after_turn :
      (i : ℕ) (s : Inner W) (f : ℕ → Task) (t : Turn W)
      → AllQueued s f
      → Step i s t
      → AllQueued t.inner (wake W t.wakes (update W f i t.task))
  unfolding wake Effect
  after_turn i s f t all (inl (quiet_turn, same), own) j =
      rw (quiet_turn, wake)
        (updated i j _ t.task f own
          (λ _. IsQueued-mono (W.contents s.waker_queue) _ j (f j) (λ h. rw same h) (all j)))
  after_turn i s f t all (inr (inl (quiet_turn, pushed)), own) j =
      rw (quiet_turn, wake)
        (updated i j _ t.task f own (λ _.
          IsQueued-mono (W.contents s.waker_queue) _ j (f j)
            (λ h. rw pushed (ground (arith, contains-snoc j i (W.contents s.waker_queue))))
            (all j)))
  after_turn i s f t all (inr (inr (w, woken, popped)), own) j =
      rw (woken, wake)
        (updated w j _ _ (update W f i t.task) (notify-IsQueued _ w (update W f i t.task w))
          (λ other. updated i j _ t.task f own (λ _.
            IsQueued-mono (W.contents s.waker_queue) _ j (f j)
              (λ h. skip_head w j _ (rw popped at h) other) (all j))))

  act-AllQueued :
      (i : ℕ) (e : Event) (s : System W)
      → AllQueued s.inner s.task
      → AllQueued (act W i e s).inner (act W i e s).task
  unfolding act
  act-AllQueued i e s all =
      after_turn i s.inner s.task (turn W i e s.inner (s.task i)) all
        (turn-Step i e s.inner (s.task i) (all i))

  run-AllQueued :
      (es : List (ℕ × Event)) (s : System W)
      → AllQueued s.inner s.task
      → AllQueued (run W es s).inner (run W es s).task
  unfolding run
  run-AllQueued [] s all = all
  run-AllQueued ((i, e) ∷ es) s all = run-AllQueued es (act W i e s) (act-AllQueued i e s all)

  -- In every run, clones included: a task whose last poll was `Pending`, and whose waker has not been
  -- called since, has its waker in the queue, where the drop of a guard finds it.
  pub waiting_is_queued :
      (es : List (ℕ × Event)) (i : ℕ)
      → (run W es (start W)).task i ≡ waiting
      → contains i (W.contents (run W es (start W)).inner.waker_queue) ≡ true
  unfolding start
  waiting_is_queued es i e = subst (IsQueued _ i) e (run-AllQueued es (start W) (λ _. tt) i)
