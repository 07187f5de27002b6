-- ===== src/Io/Context.antt =====
-- src/io/context.rs and src/io/submission.rs, and from src/worker/mod.rs the loop that submits again what
-- the ring had no room for.
--
-- The ring (the crate `io_uring`) is the parameter `Ring`: its submission queue may be full.
pub mod Waiting
use cl_async.Base.{ℕ, Bool, true, false, Option, none, some, List, [], ◌∷◌, ◌++◌, Dict}
use cl_async.Base.Int.{ℤ}
use cl_async.OsError.{Libc}
use cl_async.Io.Completion.{Completable, IoOperation, IoEntry}
use cl_async.Io.CompletionQueue.{IoCompletionSlot, add_entry, complete}

-- `as_uring_entry` may write into the operation; `push` gives `none` for a `PushError`; `completions` are
-- the key and the result of each completion that is there.
pub record Ring (T : Completable) : Type 1 where
  pub Inner : Type 0
  pub Entry : Type 0
  pub as_uring_entry : IoEntry T → Entry × IoOperation T
  pub push : Entry → Inner → Option Inner
  pub completions : Inner → List (ℕ × ℤ) × Inner

module _ (T : Completable) (R : Ring T) (D : Dict (IoCompletionSlot T)) where
  pub record IoSubmission : Type 0 where
    pub key : ℕ
    pub op : IoOperation T
    pub waker : Option ℕ

  pub record IoContext : Type 0 where
    pub inner : R.Inner
    pub completion_queue : D.Map

  -- `IoSubmission::split`.
  unfoldable pub split : IoSubmission → IoEntry T × Option ℕ
  split s = (record { op = s.op; key = s.key }, s.waker)

  -- The end of `prepare_submission`, on what the push came to.
  unfoldable pub pushed :
      ℕ → IoOperation T → Option ℕ → Option R.Inner → IoContext → Option IoSubmission × IoContext
  pushed key op waker none c = (some (record { key = key; op = op; waker = waker }), c)
  pushed key op waker (some inner) c = (
    none,
    record {
      inner = inner;
      completion_queue = add_entry T D key (record { op = op; key = key }) waker c.completion_queue;
    },
  )

  -- `prepare_submission`: `some` gives the submission back.
  unfoldable pub prepare_submission : IoSubmission → IoContext → Option IoSubmission × IoContext
  unfolding split pushed
  prepare_submission s c =
      let (entry, waker) = split s in
      let (uring_entry, op) = R.as_uring_entry entry in
      pushed s.key op waker (R.push uring_entry c.inner) c

  -- The match of the loop over the waiting submissions: `next` is what the loop goes on to.
  unfoldable pub resubmitted :
      Option IoSubmission
      → List IoSubmission
      → IoContext
      → List IoSubmission × IoContext × Bool
      → Bool
      → List IoSubmission × IoContext × Bool
  resubmitted none rest c next should_submit_io = next
  resubmitted (some s) rest c next should_submit_io = (rest ++ s ∷ [], c, should_submit_io)

  -- `while let Some(submission) = waiting_submissions.pop_front()` in `worker_loop`.
  unfoldable pub resubmit :
      List IoSubmission → IoContext → Bool → List IoSubmission × IoContext × Bool
  unfolding resubmitted
  resubmit [] c should_submit_io = ([], c, should_submit_io)
  resubmit (s ∷ rest) c should_submit_io =
      let (back, c') = prepare_submission s c in
      let next = resubmit rest c' true in resubmitted back rest c' next should_submit_io

  module _ (L : Libc) where
    -- The loop of `IoContext::complete`.
    pub complete_each : List (ℕ × ℤ) → D.Map → D.Map
    complete_each [] m = m
    complete_each ((key, result) ∷ rest) m = complete_each rest (complete T D L key result m).slots

    -- `IoContext::complete`.
    pub complete_all : IoContext → IoContext
    unfolding complete_each
    complete_all c =
        let (items, inner) = R.completions c.inner in
        record { inner = inner; completion_queue = complete_each items c.completion_queue }
