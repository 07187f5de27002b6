-- ===== src/Io/Recovery/Taking.antt =====
-- src/io/mod.rs: the buffers that are taken out of an error, which stays.
pub mod Left
use cl_async.Base.{ℕ, ◌≡◌, refl, Option, none, some, List, []}
use cl_async.Io.Buffers.{BytesMut}
use cl_async.Io.Buffers.Messages.{
  RecvMsgBuffers, RecvMsgSubmissionError, IoRecvMsgOutputBuffers, unwrap, into_vecs, into_control,
}
use cl_async.Io.Recovery.{
  IoType, IoFailure, generic, read, recv, readv, recv_msg, other, multi_read, msg, no_bytes,
  no_buffers, or_else,
}
use cl_async.Io.Recovery.Operations
use cl_async.Io.Recovery.Errors
use cl_async.Io.Recovery.Errors.{
  IoError, submission, operation, processing, IoSubmissionError, failed_to_dispatch_operation,
  output_buffer_submission_error, output_buffer_vec_submission_error,
  recv_msg_buffers_submission_error, WorkerDispatchError, from_dispatch, left_in_dispatch,
  into_buffer, into_buffers, emptied, emptied_vec,
}

-- Each kind of failure in `take_…` of `IoOperationError`.
unfoldable failure_take_bytes_mut : IoFailure → Option BytesMut × IoFailure
failure_take_bytes_mut (read b) = (some b, read no_bytes)
failure_take_bytes_mut f = (none, f)

unfoldable failure_take_vec : IoFailure → Option (List BytesMut) × IoFailure
failure_take_vec (multi_read bs) = (some bs, multi_read [])
failure_take_vec f = (none, f)

unfoldable failure_take_recvmsg_buffers : IoFailure → Option RecvMsgBuffers × IoFailure
failure_take_recvmsg_buffers (msg bs) = (some bs, msg no_buffers)
failure_take_recvmsg_buffers f = (none, f)

module _ (Other C P Q : Type 0) (get_completion : IoType Other → ℕ → C × IoType Other) where
  abbrev Submission : Type 0
  Submission = IoSubmissionError Other C P Q get_completion

  abbrev Error : Type 0
  Error = IoError Other C P Q get_completion

  -- The arm of `FailedToDispatchOperation`.
  unfoldable taken_from_dispatch {ℓ} :
      {A : Type ℓ}
      → (IoType Other → Option A × IoType Other)
      → WorkerDispatchError Other C P Q get_completion
      → Option A × Submission
  unfolding from_dispatch left_in_dispatch
  taken_from_dispatch take e = (
    from_dispatch Other C P Q get_completion (λ t. (take t).0) e,
    failed_to_dispatch_operation (left_in_dispatch Other C P Q get_completion take e),
  )

  unfoldable submission_take_bytes_mut : Submission → Option BytesMut × Submission
  unfolding taken_from_dispatch into_buffer emptied Operations.take_bytes_mut
  submission_take_bytes_mut (failed_to_dispatch_operation e) =
      taken_from_dispatch (Operations.take_bytes_mut Other) e
  submission_take_bytes_mut (output_buffer_submission_error e) =
      (some (into_buffer e), output_buffer_submission_error (emptied e))
  submission_take_bytes_mut (recv_msg_buffers_submission_error e) = (
    e.buffers.control,
    recv_msg_buffers_submission_error
        (record e { buffers = record { data_ = e.buffers.data_; control = none } }),
  )
  submission_take_bytes_mut e = (none, e)

  unfoldable submission_take_vec : Submission → Option (List BytesMut) × Submission
  unfolding taken_from_dispatch into_buffers emptied_vec Operations.take_vec
  submission_take_vec (failed_to_dispatch_operation e) =
      taken_from_dispatch (Operations.take_vec Other) e
  submission_take_vec (output_buffer_vec_submission_error e) =
      (some (into_buffers e), output_buffer_vec_submission_error (emptied_vec e))
  submission_take_vec (recv_msg_buffers_submission_error e) = (
    e.buffers.data_,
    recv_msg_buffers_submission_error
        (record e { buffers = record { data_ = none; control = e.buffers.control } }),
  )
  submission_take_vec e = (none, e)

  unfoldable submission_take_recvmsg_buffers : Submission → Option RecvMsgBuffers × Submission
  unfolding taken_from_dispatch Operations.take_recvmsg_buffers
  submission_take_recvmsg_buffers (failed_to_dispatch_operation e) =
      taken_from_dispatch (Operations.take_recvmsg_buffers Other) e
  submission_take_recvmsg_buffers (recv_msg_buffers_submission_error e) =
      (some e.buffers, recv_msg_buffers_submission_error (record e { buffers = no_buffers }))
  submission_take_recvmsg_buffers e = (none, e)

  unfoldable pub take_bytes_mut : Error → Option BytesMut × Error
  unfolding submission_take_bytes_mut failure_take_bytes_mut
  take_bytes_mut (submission e) =
      let (taken, left) = submission_take_bytes_mut e in (taken, submission left)
  take_bytes_mut (operation e) =
      let (taken, left) = failure_take_bytes_mut e.failure in
      (taken, operation (record e { failure = left }))
  take_bytes_mut (processing p) = (none, processing p)

  unfoldable pub take_vec : Error → Option (List BytesMut) × Error
  unfolding submission_take_vec failure_take_vec
  take_vec (submission e) = let (taken, left) = submission_take_vec e in (taken, submission left)
  take_vec (operation e) =
      let (taken, left) = failure_take_vec e.failure in
      (taken, operation (record e { failure = left }))
  take_vec (processing p) = (none, processing p)

  unfoldable pub take_recvmsg_buffers : Error → Option RecvMsgBuffers × Error
  unfolding submission_take_recvmsg_buffers failure_take_recvmsg_buffers
  take_recvmsg_buffers (submission e) =
      let (taken, left) = submission_take_recvmsg_buffers e in (taken, submission left)
  take_recvmsg_buffers (operation e) =
      let (taken, left) = failure_take_recvmsg_buffers e.failure in
      (taken, operation (record e { failure = left }))
  take_recvmsg_buffers (processing p) = (none, processing p)
