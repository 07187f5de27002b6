-- ===== src/Io/CompletionQueue.antt =====
-- src/io/completion_queue.rs: the slots of the operations in flight, by their keys.
--
-- The map (`DashMap`) is a parameter; a waker is a number.
pub mod Lifecycle
use cl_async.Base.{ℕ, ◌≡◌, Bool, true, false, Option, none, some, List, [], ◌∷◌, Dict}
use cl_async.Base.Int.{ℤ}
use cl_async.OsError.{Libc}
use cl_async.Io.Completion.{
  Completable, IoCompletionResult, IoEntry, IoCompletionState, into_result, complete_state,
}

module _ (T : Completable) where
  pub record IoCompletionSlot : Type 0 where
    pub state : Option (IoCompletionState T)
    pub waker : Option ℕ

  -- `Poll<Option<IoCompletionResult>>`.
  pub data Poll : Type 0 where
    pending : Poll
    ready : Option (IoCompletionResult T) → Poll

  -- `IoCompletionSlot::new`.
  unfoldable pub new_slot : IoEntry T → Option ℕ → IoCompletionSlot
  new_slot e waker = record { state = some (IoCompletionState.not_completed e); waker = waker }

  -- `try_extract_result`, then `update_waker` if there is no result yet.
  pub poll_slot : ℕ → IoCompletionSlot → IoCompletionSlot × Poll
  poll_slot waker slot = elim slot.state [
    | none ↦ (slot, ready none)
    | some st ↦ elim (into_result T st).0 [
      | none ↦ (record { state = (into_result T st).1; waker = some waker }, pending)
      | some r ↦ (record slot { state = (into_result T st).1 }, ready (some r))
    ]
  ]

  module _ (L : Libc) where
    -- `IoCompletionSlot::complete`: the slot, and whether it is still valid. The waker is called in
    -- either case.
    pub complete_slot : ℤ → IoCompletionSlot → IoCompletionSlot × Bool
    complete_slot result slot = elim slot.state [
      | none ↦ (slot, false)
      | some st ↦ elim (complete_state T L result st) [
        | none ↦ (record slot { state = none }, false)
        | some st' ↦ (record slot { state = some st' }, true)
      ]
    ]

  module _ (D : Dict IoCompletionSlot) where
    -- `add_entry`.
    unfoldable pub add_entry : ℕ → IoEntry T → Option ℕ → D.Map → D.Map
    unfolding new_slot
    add_entry key e waker m = D.insert m key (new_slot e waker)

    -- A slot goes back into the map, or is removed when its state is gone.
    put_back : ℕ → IoCompletionSlot → D.Map → D.Map
    put_back key slot m = elim slot.state [
      | none ↦ D.remove (D.insert m key slot) key
      | some st ↦ D.insert m key slot
    ]

    -- `IoCompletionQueue::poll`.
    pub poll : ℕ → ℕ → D.Map → D.Map × Poll
    unfolding poll_slot put_back
    poll key waker m = elim (D.get m key) [
      | none ↦ (m, ready none)
      | some slot ↦ let r = poll_slot waker slot in (put_back key r.0 m, r.1)
    ]

    module _ (L : Libc) where
      -- What a completion does to the queue: the slots, whether one was removed, the waker called.
      pub record Completed : Type 0 where
        pub slots : D.Map
        pub removed : Bool
        pub wakes : Option ℕ

      -- `IoCompletionQueue::complete`.
      pub complete : ℕ → ℤ → D.Map → Completed
      unfolding complete_slot
      complete key result m = elim (D.get m key) [
        | none ↦ record { slots = m; removed = false; wakes = none }
        | some slot ↦
            let c = complete_slot L result slot in
            elim c.1 [
              | true ↦ record { slots = D.insert m key c.0; removed = false; wakes = slot.waker }
              | false ↦ record {
                slots = D.remove (D.insert m key c.0) key;
                removed = true;
                wakes = slot.waker;
              }
            ]
      ]
