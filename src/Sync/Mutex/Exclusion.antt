-- ===== src/Sync/Mutex/Exclusion.antt =====
-- src/sync/mutex.rs: at most one guard at a time, as long as no guard is cloned.
use cl_async.Base.{
  ℕ, suc, ◌≡◌, ◌<◌, ◌⊎◌, ◌∙◌, sym, subst, ap, refl, inl, inr, Bool, true, false, Fifo, Option, none,
  some, Bool-cases, Option-cases, List, [], ◌∷◌, All, arith,
}
use cl_async.Sync.Mutex.{
  Pc, first_try, enqueue, second_try, Task, absent, created, polling, waiting, notified, guarded,
  unlocking, Event, lock, poll, step, drop_future, clone, drop_guard, notify, suspended,
  guards_left, Inner, Turn, quiet, check_lock, poll_step, wake_next, turn, System, update, wake,
  start, act, run,
}

-- How many guards a task holds.
unfoldable pub guards : Task → ℕ
guards (guarded more) = suc more
guards (unlocking n) = n
guards t = 0

-- What the state of a task says about the lock: a guard is the only one, and the lock is taken.
abbrev IsSingle : Bool → Task → Type 0
IsSingle locked (guarded more) = (more ≡ 0) × (locked ≡ true)
IsSingle locked (unlocking n) = n ≡ 0
IsSingle locked t = Unit

abbrev pub is_guarded : Task → Bool
is_guarded (guarded more) = true
is_guarded t = false

pub record Inv (W : Fifo ℕ) (s : System W) : Type 0 where
  pub single : (i : ℕ) → IsSingle s.inner.locked (s.task i)
  pub one : (i j : ℕ) → is_guarded (s.task i) ≡ true → is_guarded (s.task j) ≡ true → i ≡ j

abbrev pub IsNotClone : Event → Type 0
IsNotClone clone = ⊥
IsNotClone e = Unit

module _ (W : Fifo ℕ) where
  -- What a turn of one task does to the lock.
  Effect : Inner W → Task → Turn W → Type 0
  Effect s a t =
      ((t.inner.locked ≡ s.locked) × (is_guarded t.task ≡ is_guarded a) × IsSingle s.locked t.task)
      ⊎ ((s.locked ≡ false) × (t.inner.locked ≡ true) × (t.task ≡ guarded 0))
      ⊎ ((is_guarded a ≡ true) × (t.inner.locked ≡ false) × (t.task ≡ unlocking 0))

  check_lock-Effect :
      (s : Inner W) (a otherwise : Task)
      → is_guarded a ≡ false
      → is_guarded otherwise ≡ false
      → IsSingle s.locked otherwise
      → Effect s a (check_lock W s otherwise)
  unfolding check_lock Effect quiet
  check_lock-Effect s a otherwise ha ho single = elim (Bool-cases s.locked) [
    | inl e ↦ rw e (inl (refl, ho ∙ sym ha, subst (λ b. IsSingle b otherwise) e single))
    | inr e ↦ rw e (inr (inl (refl, refl, refl)))
  ]

  poll_step-Effect :
      (me : ℕ) (s : Inner W) (pc : Pc) (woken : Bool)
      → Effect s (polling pc woken) (poll_step W me s pc woken)
  unfolding poll_step suspended quiet Effect
  poll_step-Effect me s first_try woken =
      check_lock-Effect s (polling first_try woken) (polling enqueue woken) refl refl tt
  poll_step-Effect me s enqueue woken = inl (refl, refl, tt)
  poll_step-Effect me s second_try true =
      check_lock-Effect s (polling second_try true) notified refl refl tt
  poll_step-Effect me s second_try false =
      check_lock-Effect s (polling second_try false) waiting refl refl tt

  wake_next-Effect : (s : Inner W) → Effect s (unlocking 0) (wake_next W s 0)
  unfolding wake_next guards_left quiet Effect
  wake_next-Effect s = elim (Option-cases (W.pop s.waker_queue)) [
    | inl e ↦ rw (e, wake_next) (inl (refl, refl, tt))
    | inr (r, e) ↦ rw (e, wake_next) (inl (refl, refl, tt))
  ]

  drop_guard-Effect :
      (s : Inner W) (more : ℕ)
      → more ≡ 0
      → Effect s (guarded more) (quiet W (record s { locked = false }) (unlocking more))
  unfolding quiet Effect
  drop_guard-Effect s more e = inr (inr (refl, refl, ap unlocking e))

  turn-Effect :
      (me : ℕ) (e : Event) (s : Inner W) (a : Task)
      → IsNotClone e
      → IsSingle s.locked a
      → Effect s a (turn W me e s a)
  unfolding turn quiet Effect
  turn-Effect me lock s absent ok h = inl (refl, refl, tt)
  turn-Effect me poll s created ok h = inl (refl, refl, tt)
  turn-Effect me poll s waiting ok h = inl (refl, refl, tt)
  turn-Effect me poll s notified ok h = inl (refl, refl, tt)
  turn-Effect me step s (polling pc woken) ok h = poll_step-Effect me s pc woken
  turn-Effect me step s (unlocking n) ok h =
      subst (λ k. Effect s (unlocking k) (wake_next W s k)) (sym h) (wake_next-Effect s)
  turn-Effect me drop_future s created ok h = inl (refl, refl, tt)
  turn-Effect me drop_future s waiting ok h = inl (refl, refl, tt)
  turn-Effect me drop_future s notified ok h = inl (refl, refl, tt)
  turn-Effect me drop_guard s (guarded more) ok h = drop_guard-Effect s more h.0
  turn-Effect me clone s (guarded more) ok h = absurd ok
  turn-Effect me e s a ok h = inl (refl, refl, h)

  notify-IsSingle : (locked : Bool) (t : Task) → IsSingle locked t → IsSingle locked (notify t)
  unfolding notify
  notify-IsSingle locked waiting h = tt
  notify-IsSingle locked (polling pc woken) h = tt
  notify-IsSingle locked t h = h

  notify-is_guarded : (t : Task) → is_guarded (notify t) ≡ is_guarded t
  unfolding notify
  notify-is_guarded waiting = refl
  notify-is_guarded (polling pc woken) = refl
  notify-is_guarded t = refl

  wake-Inv :
      (o : Option ℕ) (s : Inner W) (f : ℕ → Task)
      → Inv W (record { inner = s; task = f })
      → Inv W (record { inner = s; task = wake W o f })
  unfolding wake
  wake-Inv none s f v = v
  wake-Inv (some w) s f v = record {
    single = λ i. ground (arith, v.single i, v.single w, notify-IsSingle s.locked (f w));
    one = λ i j hi hj. ground (arith, v.one i j, v.one w j, v.one i w, notify-is_guarded (f w));
  }

  update-Inv :
      (i : ℕ) (s : System W) (t : Turn W)
      → Inv W s
      → Effect s.inner (s.task i) t
      → Inv W (record { inner = t.inner; task = update W s.task i t.task })
  unfolding Effect
  update-Inv i s t v (inl (lk, g, single)) = record {
    single = λ j. ground (arith, v.single j);
    one = λ j k hj hk. ground (arith, v.one j k, v.one i k, v.one j i);
  }
  update-Inv i s t v (inr (inl (free, taken, now))) = record {
    single = λ j. ground (arith, v.single j);
    one = λ j k hj hk. ground (arith, v.single j, v.single k);
  }
  update-Inv i s t v (inr (inr (had, free, now))) = record {
    single = λ j. ground (arith, v.single j, v.one i j);
    one = λ j k hj hk. ground (arith, v.one j k);
  }

  act-Inv : (i : ℕ) (e : Event) (s : System W) → IsNotClone e → Inv W s → Inv W (act W i e s)
  unfolding act
  act-Inv i e s ok v = wake-Inv _ _ _ (
      update-Inv i s (turn W i e s.inner (s.task i)) v
        (turn-Effect i e s.inner (s.task i) ok (v.single i)))

  start-Inv : Inv W (start W)
  unfolding start
  start-Inv = record { single = λ i. tt; one = λ i j h k. cc }

  run-Inv :
      (es : List (ℕ × Event)) (s : System W)
      → All (λ r. IsNotClone r.1) es
      → Inv W s
      → Inv W (run W es s)
  unfolding run
  run-Inv [] s ok v = v
  run-Inv ((i, e) ∷ es) s ok v = run-Inv es (act W i e s) ok.1 (act-Inv i e s ok.0 v)

  -- Mutual exclusion: however the tasks interleave, as long as no guard is cloned, no two tasks hold
  -- a guard, a task holds at most one, and the lock is taken while it does.
  pub mutual_exclusion :
      (es : List (ℕ × Event)) (i j : ℕ)
      → All (λ r. IsNotClone r.1) es
      → 0 < guards ((run W es (start W)).task i)
      → 0 < guards ((run W es (start W)).task j)
      → (i ≡ j)
        × (guards ((run W es (start W)).task i) ≡ 1)
        × ((run W es (start W)).inner.locked ≡ true)
  unfolding guards
  mutual_exclusion es i j ok hi hj =
      let v = run-Inv es (start W) ok start-Inv in ground (arith, v.single i, v.single j, v.one i j)

  -- A clone breaks it: when a task clones its guard and drops one of the two, the other is still
  -- there and the lock is free, so that the next task that polls gets a guard as well.
  pub clone_breaks_exclusion :
      (me other more : ℕ) (s : Inner W) (woken : Bool)
      → let c = turn W me clone s (guarded more) in
        let d = turn W me drop_guard c.inner c.task in
        let t = turn W other step d.inner (polling first_try woken) in
        (guards d.task ≡ suc more) × (guards t.task ≡ 1) × (t.inner.locked ≡ true)
  unfolding turn quiet poll_step check_lock guards
  clone_breaks_exclusion me other more s woken = (refl, refl, refl)
