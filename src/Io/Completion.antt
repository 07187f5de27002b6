-- ===== src/Io/Completion.antt =====
-- src/io/completion.rs, src/io/entry.rs and `IoOperation::complete` of src/io/operation/mod.rs: what
-- the completions of one operation amount to.
--
-- The operation's own data (`IoType`, with `CompletableOperation`) is the parameter `T`.
pub mod Persistent
use cl_async.Base.{
  ℕ, suc, ◌≡◌, refl, leb, Bool, true, if◌then◌else◌, Option, none, some, List, [], ◌∷◌, ◌++◌,
  length, Result, ok, err,
}
use cl_async.Base.Int.{ℤ, pos, negsuc}
use cl_async.OsError.{Libc, OsError, from}

-- The trait `CompletableOperation`: both methods may change the operation.
pub record Completable : Type 1 where
  pub IoType : Type 0
  pub Completion : Type 0
  pub Failure : Type 0
  pub get_completion : IoType → ℕ → Completion × IoType
  pub get_failure : IoType → Failure × IoType

pub data IoDuration : Type 0 where
  zero single persistent : IoDuration

pub data MultiCompletionResultState : Type 0 where
  running draining : MultiCompletionResultState

module _ (T : Completable) where
  pub record IoOperation : Type 0 where
    pub fd : ℤ
    pub t : T.IoType
    pub duration : IoDuration

  pub record IoOperationError : Type 0 where
    pub failure : T.Failure
    pub os_error : OsError

  abbrev pub IoCompletionResult : Type 0
  IoCompletionResult = Result T.Completion IoOperationError

  pub record IoEntry : Type 0 where
    pub op : IoOperation
    pub key : ℕ

  pub record IoMultiCompletionResult : Type 0 where
    pub inner : List IoCompletionResult
    pub op : IoOperation
    pub state : MultiCompletionResultState

  pub data IoCompletionState : Type 0 where
    not_completed : IoEntry → IoCompletionState
    single : IoCompletionResult → IoCompletionState
    multi : IoMultiCompletionResult → IoCompletionState
    completed : IoCompletionState

  -- `IoMultiCompletionResult::new`.
  unfoldable pub new_multi : IoCompletionResult → IoOperation → IoMultiCompletionResult
  new_multi result op = record { inner = result ∷ []; op = op; state = running }

  -- `is_empty` counts the result that is about to be taken.
  unfoldable pub stays : MultiCompletionResultState → List IoCompletionResult → Bool
  stays draining rest = leb 2 (length rest)
  stays running rest = true

  -- `IoCompletionState::into_result`: what a poll takes out, and the state that is left.
  unfoldable pub into_result :
      IoCompletionState → Option IoCompletionResult × Option IoCompletionState
  unfolding stays
  into_result (not_completed e) = (none, some (not_completed e))
  into_result (single r) = (some r, none)
  into_result (multi m) = elim m.inner [
    | [] ↦ (none, if stays m.state [] then some (multi m) else none)
    | r ∷ rest ↦ (
      some r,
      if stays m.state (r ∷ rest) then some (multi (record m { inner = rest })) else none,
    )
  ]
  into_result completed = (none, none)

  module _ (L : Libc) where
    -- `IoOperation::complete`. The result is an `i32`: a negative one is an error number.
    unfoldable pub complete_op : ℤ → IoOperation → IoCompletionResult × IoOperation
    complete_op (negsuc n) op =
        let f = T.get_failure op.t in
        (err (record { failure = f.0; os_error = from L (pos (suc n)) }), record op { t = f.1 })
    complete_op (pos n) op = let c = T.get_completion op.t n in (ok c.0, record op { t = c.1 })

    -- The match on `OperationCanceled` in `IoMultiCompletionResult::complete`.
    unfoldable pub drains :
        IoCompletionResult → MultiCompletionResultState → MultiCompletionResultState
    drains (ok c) state = state
    drains (err e) state = elim e.os_error [ OsError.operation_canceled ↦ draining | _ ↦ state ]

    -- `IoMultiCompletionResult::complete`.
    unfoldable pub complete_multi : ℤ → IoMultiCompletionResult → IoMultiCompletionResult
    unfolding complete_op drains
    complete_multi result m =
        let c = complete_op result m.op in
        record { inner = m.inner ++ c.0 ∷ []; op = c.1; state = drains c.0 m.state }

    -- `IoEntry::complete`.
    pub complete_entry : ℤ → IoEntry → IoCompletionState
    unfolding complete_op new_multi
    complete_entry result e =
        let c = complete_op result e.op in
        elim c.1.duration [
          | IoDuration.zero ↦ completed
          | IoDuration.single ↦ IoCompletionState.single c.0
          | IoDuration.persistent ↦ multi (new_multi c.0 c.1)
        ]

    -- `IoCompletionState::complete`.
    unfoldable pub complete_state : ℤ → IoCompletionState → Option IoCompletionState
    unfolding complete_multi
    complete_state result (not_completed e) = some (complete_entry result e)
    complete_state result (single r) = none
    complete_state result (multi m) = some (multi (complete_multi result m))
    complete_state result completed = none

    pub complete_entry-single :
        (result : ℤ) (e : IoEntry)
        → (complete_op result e.op).1.duration ≡ IoDuration.single
        → complete_entry result e ≡ IoCompletionState.single (complete_op result e.op).0
    unfolding complete_entry
    complete_entry-single result e h = rw (h, complete_entry)

    pub complete_entry-zero :
        (result : ℤ) (e : IoEntry)
        → (complete_op result e.op).1.duration ≡ IoDuration.zero
        → complete_entry result e ≡ completed
    unfolding complete_entry
    complete_entry-zero result e h = rw (h, complete_entry)

    -- A completion never changes what an operation is for.
    pub complete_op-duration :
        (result : ℤ) (op : IoOperation) → (complete_op result op).1.duration ≡ op.duration
    unfolding complete_op
    complete_op-duration (pos n) op = refl
    complete_op-duration (negsuc n) op = refl
