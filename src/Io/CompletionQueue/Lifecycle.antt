-- ===== src/Io/CompletionQueue/Lifecycle.antt =====
-- src/io/completion_queue.rs: the life of a slot from its submission to its last result.
use cl_async.Base.{ℕ, ◌≡◌, refl, ap, ◌∙◌, ==_iff, if◌then◌else◌, false, Option, none, some, Dict}
use cl_async.Base.Int.{ℤ}
use cl_async.OsError.{Libc}
use cl_async.Io.Completion.{
  Completable, IoDuration, IoCompletionResult, IoEntry, IoCompletionState, completed, into_result,
  complete_state, complete_op, complete_entry, complete_entry-single, complete_entry-zero,
  complete_op-duration,
}
use cl_async.Io.CompletionQueue.{
  IoCompletionSlot, pending, ready, new_slot, poll_slot, complete_slot, add_entry, put_back, poll,
  complete,
}

module _ (T : Completable) (D : Dict (IoCompletionSlot T)) where
  pub get-insert_self :
      (m : D.Map) (k : ℕ) (v : IoCompletionSlot T) → D.get (D.insert m k v) k ≡ some v
  get-insert_self m k v =
      D.get-insert m k k v ∙ ap (λ b. if b then some v else D.get m k) ((==_iff k k).1 refl)

  pub get-remove_self : (m : D.Map) (k : ℕ) → D.get (D.remove m k) k ≡ none
  get-remove_self m k =
      D.get-remove m k k ∙ ap (λ b. if b then none else D.get m k) ((==_iff k k).1 refl)

  abbrev slot_of : Option (IoCompletionState T) → Option ℕ → IoCompletionSlot T
  slot_of st w = record { state = st; waker = w }

  pub poll-absent :
      (m : D.Map) (key me : ℕ) → D.get m key ≡ none → (poll T D key me m).1 ≡ ready none
  unfolding poll
  poll-absent m key me h = rw (h, poll) refl

  poll_waiting :
      (m : D.Map) (key me : ℕ) (e : IoEntry T) (w : Option ℕ)
      → D.get m key ≡ some (slot_of (some (IoCompletionState.not_completed e)) w)
      → poll T D key me m
        ≡ (D.insert m key (slot_of (some (IoCompletionState.not_completed e)) (some me)), pending)
  unfolding poll poll_slot put_back into_result
  poll_waiting m key me e w h = rw (h, poll)

  poll_single :
      (m : D.Map) (key me : ℕ) (r : IoCompletionResult T) (w : Option ℕ)
      → D.get m key ≡ some (slot_of (some (IoCompletionState.single r)) w)
      → poll T D key me m ≡ (D.remove (D.insert m key (slot_of none w)) key, ready (some r))
  unfolding poll poll_slot put_back into_result
  poll_single m key me r w h = rw (h, poll)

  poll_completed :
      (m : D.Map) (key me : ℕ) (w : Option ℕ)
      → D.get m key ≡ some (slot_of (some completed) w)
      → poll T D key me m ≡ (D.remove (D.insert m key (slot_of none (some me))) key, pending)
  unfolding poll poll_slot put_back into_result
  poll_completed m key me w h = rw (h, poll)

  module _ (L : Libc) where
    complete_waiting :
        (m : D.Map) (key : ℕ) (result : ℤ) (e : IoEntry T) (w : Option ℕ) (st : IoCompletionState T)
        → D.get m key ≡ some (slot_of (some (IoCompletionState.not_completed e)) w)
        → complete_entry T L result e ≡ st
        → complete T D L key result m
          ≡ record { slots = D.insert m key (slot_of (some st) w); removed = false; wakes = w }
    unfolding complete complete_slot complete_state
    complete_waiting m key result e w st h k = rw (h, complete) (rw k refl)

    pub complete_single :
        (m : D.Map) (key me : ℕ) (e : IoEntry T) (result : ℤ)
        → (complete_op T L result e.op).1.duration ≡ IoDuration.single
        → D.get m key ≡ some (slot_of (some (IoCompletionState.not_completed e)) (some me))
        → let done = complete T D L key result m in
          let (taken, after) = poll T D key me done.slots in
          (done.wakes ≡ some me)
          × (done.removed ≡ false)
          × (after ≡ ready (some (complete_op T L result e.op).0))
          × (D.get taken key ≡ none)
    complete_single m key me e result once h =
        let st =
          slot_of (some (IoCompletionState.single (complete_op T L result e.op).0)) (some me) in
        rw (complete_waiting m key result e (some me) _ h (complete_entry-single T L result e once))
          (rw (poll_single (D.insert m key st) key me _ (some me) (get-insert_self m key st)) (
            refl,
            refl,
            refl,
            get-remove_self (D.insert (D.insert m key st) key (slot_of none (some me))) key,
          ))

    -- An operation that completes once: until it does, a poll is `Pending` and leaves its waker; the
    -- completion calls that waker; the next poll gives the result, and the key is gone after it.
    pub single_lifecycle :
        (m : D.Map) (key me : ℕ) (e : IoEntry T) (waker : Option ℕ) (result : ℤ)
        → e.op.duration ≡ IoDuration.single
        → let added = add_entry T D key e waker m in
          let (parked, before) = poll T D key me added in
          let done = complete T D L key result parked in
          let (taken, after) = poll T D key me done.slots in
          (before ≡ pending)
          × (done.wakes ≡ some me)
          × (done.removed ≡ false)
          × (after ≡ ready (some (complete_op T L result e.op).0))
          × (D.get taken key ≡ none)
    unfolding add_entry new_slot
    single_lifecycle m key me e waker result once =
        let waiting = λ (w : Option ℕ). slot_of (some (IoCompletionState.not_completed e)) w in
        let added = D.insert m key (waiting waker) in
        let rest =
          complete_single (D.insert added key (waiting (some me))) key me e result
            (complete_op-duration T L result e.op ∙ once)
            (get-insert_self added key (waiting (some me))) in
        rw (poll_waiting added key me e waker (get-insert_self m key (waiting waker)))
          (refl, rest.0, rest.1, rest.2, rest.3)

    -- An operation of no duration: its completion calls the waker that came with it, if any, and leaves
    -- its slot in the map, completed. The next poll of that key is `Pending`, and the key is gone after it.
    zero_stays :
        (m : D.Map) (key me : ℕ) (e : IoEntry T) (waker : Option ℕ) (result : ℤ)
        → e.op.duration ≡ IoDuration.zero
        → let done = complete T D L key result (add_entry T D key e waker m) in
          let (taken, after) = poll T D key me done.slots in
          (done.wakes ≡ waker)
          × (done.removed ≡ false)
          × (D.get done.slots key ≡ some (record { state = some completed; waker = waker }))
          × (after ≡ pending)
          × (D.get taken key ≡ none)
    unfolding add_entry new_slot
    zero_stays m key me e waker result once =
        let added = slot_of (some (IoCompletionState.not_completed e)) waker in
        let gone = slot_of (some completed) waker in
        let m1 = D.insert m key added in
        let m2 = D.insert m1 key gone in
        let there : D.get m2 key ≡ some gone = get-insert_self m1 key gone in
        rw
          (complete_waiting m1 key result e waker _ (get-insert_self m key added)
            (complete_entry-zero T L result e (complete_op-duration T L result e.op ∙ once)))
          (rw (poll_completed m2 key me waker there) (
            refl,
            refl,
            there,
            refl,
            get-remove_self (D.insert m2 key (slot_of none (some me))) key,
          ))
