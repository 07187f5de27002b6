-- ===== src/Io/Future.antt =====
-- src/io/operation/future.rs, src/io/submission_queue.rs, and from src/worker/mod.rs the handle of a
-- submission: the future of one operation.
--
-- Each worker has its own channel, its own keys and its own queue of completions; the pool chooses the
-- worker of each submission, and `chosen` is its choice in a call. The signal that goes with a message is
-- left out. The operation that cancels a key is a parameter, and so is the conversion of a completion.
pub mod Life
use cl_async.Base.{
  ℕ, suc, ◌+◌, ◌%◌, ◌^◌, ◌==◌, Bool, true, false, if◌then◌else◌, Option, none, some, List, [], ◌∷◌,
  ◌++◌, Result, ok, err, Dict,
}
use cl_async.Base.Int.{ℤ}
use cl_async.Io.Completion.{Completable, IoOperation, IoOperationError, IoCompletionResult}
use cl_async.Io.CompletionQueue.{IoCompletionSlot, Poll}
use cl_async.Io.CompletionQueue
use cl_async.Io.Context.{Ring, IoSubmission}

module _ (T : Completable) (R : Ring T) (D : Dict (IoCompletionSlot T)) where
  -- What the handle of a worker reaches: its channel, while the worker receives, the counter of its
  -- `KeyGenerator`, and its completion queue.
  pub record Client : Type 0 where
    pub connected : Bool
    pub messages : List (IoSubmission T R D)
    pub next_key : ℕ
    pub completion_queue : D.Map

  abbrev pub Pool : Type 0
  Pool = ℕ → Client

  abbrev pub with_client : ℕ → Client → Pool → Pool
  with_client i c pool j = if i == j then c else pool j

  -- `IoSubmissionQueue::submit`: the key, if the message was sent.
  unfoldable pub submit : IoOperation T → Option ℕ → Client → Option ℕ × Client
  submit op waker c =
      let key = c.next_key in
      let drawn = record c { next_key = (key + 1) % 2 ^ 64 } in
      let sent = record drawn {
        messages = c.messages ++ record { key = key; op = op; waker = waker } ∷ [];
      } in
      if c.connected then (some key, sent) else (none, drawn)

  -- `WorkerIoSubmissionHandle`: the worker whose completion queue it holds, and the key.
  pub record Handle : Type 0 where
    pub worker : ℕ
    pub key : ℕ

  -- `submit_io_operation`, on the worker that the pool chooses, if there is one.
  unfoldable pub submit_io_operation :
      Option ℕ → IoOperation T → Option ℕ → Pool → Option Handle × Pool
  unfolding submit
  submit_io_operation none op waker pool = (none, pool)
  submit_io_operation (some i) op waker pool =
      let (key, c) = submit op waker (pool i) in
      (
        elim key [ none ↦ none | some k ↦ some (record { worker = i; key = k }) ],
        with_client i c pool,
      )

  pub data IoError : Type 0 where
    submission : IoError
    operation : IoOperationError T → IoError
    unexpected_completion_result : IoError

  pub record IoOperationFuture : Type 0 where
    pub operation : Option (IoOperation T)
    pub handle : Option Handle

  -- `IoOperationFuture::new`.
  unfoldable pub new : IoOperation T → IoOperationFuture
  new op = record { operation = some op; handle = none }

  module _ {A : Type 0} (try_from_completion : T.Completion → Option A) where
    -- What a poll gives; `panics` is `unwrap` of an operation that is gone.
    pub data Outcome : Type 0 where
      pending panics : Outcome
      ready : Result A IoError → Outcome

    unfoldable pub converted : Option A → Outcome
    converted none = ready (err IoError.unexpected_completion_result)
    converted (some a) = ready (ok a)

    -- The match on what the handle's poll gave.
    unfoldable pub outcome_of : Poll T → Outcome
    unfolding converted
    outcome_of Poll.pending = pending
    outcome_of (Poll.ready none) = ready (err IoError.unexpected_completion_result)
    outcome_of (Poll.ready (some (err e))) = ready (err (IoError.operation e))
    outcome_of (Poll.ready (some (ok c))) = converted (try_from_completion c)

    -- The end of the first poll.
    unfoldable pub submitted : Option Handle × Pool → Outcome × IoOperationFuture × Pool
    submitted (none, pool) =
        (ready (err IoError.submission), record { operation = none; handle = none }, pool)
    submitted (some h, pool) = (pending, record { operation = none; handle = some h }, pool)

    unfoldable pub first_poll :
        ℕ → Option ℕ → Option (IoOperation T) → Pool → Outcome × IoOperationFuture × Pool
    unfolding submitted submit_io_operation
    first_poll me chosen none pool = (panics, record { operation = none; handle = none }, pool)
    first_poll me chosen (some op) pool = submitted (submit_io_operation chosen op (some me) pool)

    -- `IoOperationFuture::poll`.
    unfoldable pub poll :
        ℕ → Option ℕ → IoOperationFuture → Pool → Outcome × IoOperationFuture × Pool
    unfolding first_poll outcome_of
    poll me chosen f pool = elim f.handle [
      | none ↦ first_poll me chosen f.operation pool
      | some h ↦
          let c = pool h.worker in
          let (slots, result) = CompletionQueue.poll T D h.key me c.completion_queue in
          (outcome_of result, f, with_client h.worker (record c { completion_queue = slots }) pool)
    ]

  module _ (cancel_forget : ℕ → IoOperation T) where
    -- `IoOperationFuture::drop`, with `WorkerIoSubmissionHandle::cancel`.
    unfoldable pub drop_future : Option ℕ → IoOperationFuture → Pool → Pool
    unfolding submit_io_operation
    drop_future chosen f pool = elim f.handle [
      | none ↦ pool
      | some h ↦ (submit_io_operation chosen (cancel_forget h.key) none pool).1
    ]
