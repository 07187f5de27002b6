-- ===== src/Io/Future/Life.antt =====
-- src/io/operation/future.rs: the life of the future of one operation.
use cl_async.Base.{
  ℕ, ◌+◌, ◌%◌, ◌^◌, ◌≡◌, ◌≢◌, refl, ap, ◌∙◌, ◌==◌, ==_iff, true, false, Option, none, some, [], ◌∷◌,
  ◌++◌, err, Dict, arith,
}
use cl_async.Base.Int.{ℤ}
use cl_async.OsError.{Libc}
use cl_async.Io.Completion.{
  Completable, IoDuration, IoOperation, IoEntry, complete_op, complete_op-duration,
}
use cl_async.Io.CompletionQueue.{IoCompletionSlot, Poll, new_slot, add_entry, complete}
use cl_async.Io.CompletionQueue
use cl_async.Io.CompletionQueue.Lifecycle.{complete_single, poll-absent, get-insert_self}
use cl_async.Io.Context.{Ring, IoSubmission, IoContext, split, pushed, prepare_submission}
use cl_async.Io.Future.{
  Client, Pool, with_client, submit, submit_io_operation, IoError, IoOperationFuture, new, Outcome,
  outcome_of, submitted, first_poll, poll, drop_future,
}

module _ (T : Completable) (R : Ring T) (D : Dict (IoCompletionSlot T)) where
  -- The submission that a future makes on a worker.
  abbrev pub submission_on : Client T R D → IoOperation T → Option ℕ → IoSubmission T R D
  submission_on c op waker = record { key = c.next_key; op = op; waker = waker }

  same_client : (i : ℕ) (c : Client T R D) (pool : Pool T R D) → with_client T R D i c pool i ≡ c
  same_client i c pool = rw ((==_iff i i).1 refl) refl

  -- The client of a worker after a submission.
  abbrev pub sent_on : Client T R D → IoOperation T → Option ℕ → Client T R D
  sent_on c op waker = record c {
    next_key = (c.next_key + 1) % 2 ^ 64;
    messages = c.messages ++ submission_on c op waker ∷ [];
  }

  submit_io_operation-up :
      (i : ℕ) (op : IoOperation T) (waker : Option ℕ) (p : Pool T R D)
      → (p i).connected ≡ true
      → submit_io_operation T R D (some i) op waker p ≡ (
        some (record { worker = i; key = (p i).next_key }),
        with_client T R D i (sent_on (p i) op waker) p,
      )
  unfolding submit_io_operation submit
  submit_io_operation-up i op waker p up = rw (up, submit_io_operation) refl

  module _ {A : Type 0} (try_from_completion : T.Completion → Option A) where
    abbrev pub waiting_future : ℕ → Pool T R D → IoOperationFuture T R D
    waiting_future i p = record {
      operation = none;
      handle = some (record { worker = i; key = (p i).next_key });
    }

    first_poll-up :
        (op : IoOperation T) (me i : ℕ) (p : Pool T R D)
        → (p i).connected ≡ true
        → poll T R D try_from_completion me (some i) (new T R D op) p ≡ (
          Outcome.pending,
          waiting_future i p,
          with_client T R D i (sent_on (p i) op (some me)) p,
        )
    unfolding poll first_poll submitted new
    first_poll-up op me i p up = rw (submit_io_operation-up i op (some me) p up, poll) refl

    -- A poll of a future that waits looks at its key in the completion queue of its worker.
    later_poll :
        (me i : ℕ) (chosen : Option ℕ) (p q : Pool T R D) (c : Client T R D)
        → q i ≡ c
        → (poll T R D try_from_completion me chosen (waiting_future i p) q).0
          ≡ outcome_of T R D try_from_completion
              (CompletionQueue.poll T D (p i).next_key me c.completion_queue).1
    unfolding poll
    later_poll me i chosen p q c e =
        ap
          (λ k.
            outcome_of T R D try_from_completion
              (CompletionQueue.poll T D (p i).next_key me k.completion_queue).1)
          e

    -- A future that is polled again before its worker has taken the submission fails, while the submission
    -- is on its way.
    pub polled_early :
        (op : IoOperation T) (me again i : ℕ) (chosen : Option ℕ) (p : Pool T R D)
        → (p i).connected ≡ true
        → D.get (p i).completion_queue (p i).next_key ≡ none
        → let (o1, f, p1) = poll T R D try_from_completion me (some i) (new T R D op) p in
          let (o2, g, p2) = poll T R D try_from_completion again chosen f p1 in
          (o1 ≡ Outcome.pending)
          × ((p1 i).messages ≡ (p i).messages ++ submission_on (p i) op (some me) ∷ [])
          × (o2 ≡ Outcome.ready (err IoError.unexpected_completion_result))
    unfolding outcome_of
    polled_early op me again i chosen p up absent =
        let sent = sent_on (p i) op (some me) in
        let same = same_client i sent p in
        let nothing : (CompletionQueue.poll T D (p i).next_key again sent.completion_queue).1
            ≡ Poll.ready none =
          poll-absent T D sent.completion_queue (p i).next_key again absent in
        rw (first_poll-up op me i p up) (
          refl,
          ap (λ c. c.messages) same,
          later_poll again i chosen p (with_client T R D i sent p) sent same
              ∙ ap (outcome_of T R D try_from_completion) nothing,
        )

    -- The life of an operation that completes once, on a worker whose ring has room for it.
    pub future_lifecycle :
        (L : Libc) (op : IoOperation T) (me i : ℕ) (chosen : Option ℕ) (p : Pool T R D)
        (c0 : IoContext T R D) (inner : R.Inner) (result : ℤ)
        → (p i).connected ≡ true
        → R.push (R.as_uring_entry (record { op = op; key = (p i).next_key })).0 c0.inner
          ≡ some inner
        → (R.as_uring_entry (record { op = op; key = (p i).next_key })).1.duration
          ≡ IoDuration.single
        → let (o1, f, p1) = poll T R D try_from_completion me (some i) (new T R D op) p in
          let (back, c1) = prepare_submission T R D (submission_on (p i) op (some me)) c0 in
          let done = complete T D L (p i).next_key result c1.completion_queue in
          let p2 = with_client T R D i (record (p1 i) { completion_queue = done.slots }) p1 in
          (o1 ≡ Outcome.pending)
          × ((p1 i).messages ≡ (p i).messages ++ submission_on (p i) op (some me) ∷ [])
          × (back ≡ none)
          × (done.wakes ≡ some me)
          × ((poll T R D try_from_completion me chosen f p2).0
              ≡ outcome_of T R D try_from_completion (
                  Poll.ready (
                    some
                      (complete_op T L result
                        (R.as_uring_entry (record { op = op; key = (p i).next_key })).1).0)))
    unfolding prepare_submission split pushed add_entry new_slot
    future_lifecycle L op me i chosen p c0 inner result up room once =
        let s = submission_on (p i) op (some me) in
        let key = (p i).next_key in
        let entry : IoEntry T = record {
          op = (R.as_uring_entry (record { op = op; key = key })).1;
          key = key;
        } in
        let m = D.insert c0.completion_queue key (new_slot T entry (some me)) in
        let (wakes, removed, after, gone) =
          complete_single T D L m key me entry result
            (complete_op-duration T L result entry.op ∙ once)
            (get-insert_self T D c0.completion_queue key (new_slot T entry (some me))) in
        let sent = sent_on (p i) op (some me) in
        let p1 = with_client T R D i sent p in
        let done = complete T D L key result m in
        let last = record (p1 i) { completion_queue = done.slots } in
        rw (first_poll-up op me i p up, room)
          (
            refl,
            ap (λ c. c.messages) (same_client i sent p),
            refl,
            wakes,
            later_poll me i chosen p (with_client T R D i last p1) last (same_client i last p1)
                ∙ ap (outcome_of T R D try_from_completion) after,
          )

  -- A future that is dropped while it waits sends its cancellation to the worker that the pool chooses
  -- then: if it is another one, that worker is asked to cancel its own operation of the same key.
  pub drop_cancels_elsewhere :
      (cancel_forget : ℕ → IoOperation T) (i j key : ℕ) (p : Pool T R D)
      → (p j).connected ≡ true
      → i ≢ j
      → let q =
          drop_future T R D cancel_forget
            (some j)
            (record { operation = none; handle = some (record { worker = i; key = key }) })
            p in
        (q i ≡ p i)
        × ((q j).messages ≡ (p j).messages ++ submission_on (p j) (cancel_forget key) none ∷ [])
  unfolding drop_future
  drop_cancels_elsewhere cancel_forget i j key p up ne =
      let other : (j == i) ≡ false = ground arith in
      let cancel = cancel_forget key in
      let sent = submit_io_operation-up j cancel none p up in
      (
        ap (λ r. r.1 i) sent ∙ rw (other) refl,
        ap (λ r. (r.1 j).messages) sent
            ∙ ap (λ c. c.messages) (same_client j (sent_on (p j) cancel none) p),
      )
