-- ===== src/Io/Recovery/Ways.antt =====
-- The ways in which a read into the client's buffers fails: src/io/operation/future.rs makes the operation,
-- src/worker/mod.rs dispatches it, and the kernel completes it.
use cl_async.Base.{ℕ, Option, none, some, List, Result, ok, err}
use cl_async.Base.Int.{ℤ, negsuc}
use cl_async.OsError.{Libc}
use cl_async.Io.Buffers.{BytesMut, BytesCrate}
use cl_async.Io.Buffers.Output.{new_output, new_vectored}
use cl_async.Io.Buffers.Messages.{RecvMsgBuffers, prepare}
use cl_async.Io.Completion.{IoDuration, IoOperation, complete_op}
use cl_async.Io.Recovery.{
  IoType, read, recv, readv, recv_msg, new_readv, new_recv_msg, get_failure, with_entry,
}
use cl_async.Io.Recovery.Errors
use cl_async.Io.Recovery.Errors.{
  OutputBufferSubmissionError, OutputBufferVecSubmissionError, IoError, IoSubmissionError,
  operations,
}

-- What goes wrong after the operation is made; `failed n` is the result -(n + 1) of the kernel, which has
-- the entry of the operation then.
pub data Way : Type 0 where
  no_worker : Way
  not_sent : Way
  failed : ℕ → Way

module _ (Other C P Q : Type 0) (get_completion : IoType Other → ℕ → C × IoType Other) (L : Libc)
    (G : BytesCrate) (fd : ℤ) where
  abbrev Failing : Type 0
  Failing = Result C (IoError Other C P Q get_completion)

  abbrev operation_of : IoType Other → IoOperation (operations Other C P Q get_completion)
  operation_of t = record { fd = fd; t = t; duration = IoDuration.single }

  -- How an operation ends.
  unfoldable pub ended : Way → IoType Other → Failing
  unfolding complete_op get_failure with_entry
  ended no_worker t = err (
      IoError.submission (
        IoSubmissionError.failed_to_dispatch_operation
          (Errors.WorkerDispatchError.failed_to_find_worker (operation_of t))))
  ended not_sent t = err (
      IoError.submission (
        IoSubmissionError.failed_to_dispatch_operation (
          Errors.WorkerDispatchError.failed_to_send_message
            (Errors.Message.submit_io (operation_of t)))))
  ended (failed n) t =
      elim (complete_op (operations Other C P Q get_completion) L (negsuc n)
        (operation_of (with_entry Other G t))).0 [ ok c ↦ ok c | err e ↦ err (IoError.operation e) ]

  -- `read_at_into`, and `recv_into`.
  unfoldable pub read_at_into : Way → ℕ → BytesMut → Failing
  unfolding ended new_output
  read_at_into way offset buffer = elim (new_output buffer) [
    | ok out ↦ ended way (read (record { buffer = some out; offset = offset }))
    | err e ↦ err (
        IoError.submission (
          IoSubmissionError.output_buffer_submission_error
            (OutputBufferSubmissionError.invalid_output_buffer e)))
  ]

  unfoldable pub recv_into : Way → ℤ → BytesMut → Failing
  unfolding ended new_output
  recv_into way flags buffer = elim (new_output buffer) [
    | ok out ↦ ended way (recv (record { buffer = some out; flags = flags }))
    | err e ↦ err (
        IoError.submission (
          IoSubmissionError.output_buffer_submission_error
            (OutputBufferSubmissionError.invalid_output_buffer e)))
  ]

  -- `readv_at_into`.
  unfoldable pub readv_at_into : ℕ → Way → ℕ → List BytesMut → Failing
  unfolding ended new_vectored new_readv
  readv_at_into max way offset buffers = elim (new_vectored buffers) [
    | ok out ↦ elim (new_readv max out offset) [
      | ok d ↦ ended way (readv d)
      | err e ↦ err (IoError.submission (IoSubmissionError.invalid_io_input_buffer_error e))
    ]
    | err e ↦ err (
        IoError.submission (
          IoSubmissionError.output_buffer_vec_submission_error
            (OutputBufferVecSubmissionError.invalid_output_buffer e)))
  ]

  -- `recv_msg_into`.
  unfoldable pub recv_msg_into : ℕ → Way → ℤ → RecvMsgBuffers → Failing
  unfolding ended prepare new_recv_msg
  recv_msg_into max way flags buffers = elim (prepare buffers) [
    | ok out ↦ elim (new_recv_msg G max out flags) [
      | ok d ↦ ended way (recv_msg d)
      | err e ↦ err (IoError.submission (IoSubmissionError.recv_msg_buffers_submission_error e))
    ]
    | err e ↦ err (IoError.submission (IoSubmissionError.recv_msg_buffers_submission_error e))
  ]

  -- What a client has of its buffers, when it takes them from the error.
  unfoldable pub bytes_back : Failing → Option BytesMut
  unfolding Errors.into_bytes_mut
  bytes_back (ok c) = none
  bytes_back (err e) = Errors.into_bytes_mut Other C P Q get_completion e

  unfoldable pub vec_back : Failing → Option (List BytesMut)
  unfolding Errors.into_vec
  vec_back (ok c) = none
  vec_back (err e) = Errors.into_vec Other C P Q get_completion e

  unfoldable pub buffers_back : Failing → Option RecvMsgBuffers
  unfolding Errors.into_recvmsg_buffers
  buffers_back (ok c) = none
  buffers_back (err e) = Errors.into_recvmsg_buffers Other C P Q get_completion e
