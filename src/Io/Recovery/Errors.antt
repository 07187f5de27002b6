-- ===== src/Io/Recovery/Errors.antt =====
-- src/io/mod.rs: the errors of an operation, and the buffers that are recovered from them.
--
-- `into` gives up the error; `take` gives what is taken, and the error that is left, in which
-- `std::mem::take` leaves an empty buffer. `P` is what an error says and holds no buffer of this kind,
-- `Q` the messages to a worker that are no submissions.
use cl_async.Base.{ℕ, Option, none, some, List, []}
use cl_async.Io.Buffers.{BytesMut, InvalidIoVecError}
use cl_async.Io.Buffers.Output.{EmptyIoOutputBufferError, EmptyVectoredOutputBufferError}
use cl_async.Io.Buffers.Messages.{RecvMsgBuffers, RecvMsgSubmissionError}
use cl_async.Io.Completion.{Completable, IoOperation, IoOperationError}
use cl_async.Io.Recovery.{IoType, IoFailure, read, multi_read, msg, get_failure, no_bytes}
use cl_async.Io.Recovery.Operations

pub data OutputBufferSubmissionError : Type 0 where
  invalid_output_buffer : EmptyIoOutputBufferError → OutputBufferSubmissionError
  invalid_io_vec : BytesMut → InvalidIoVecError → OutputBufferSubmissionError

pub data OutputBufferVecSubmissionError : Type 0 where
  invalid_output_buffer : EmptyVectoredOutputBufferError → OutputBufferVecSubmissionError
  invalid_io_vec : List BytesMut → InvalidIoVecError → OutputBufferVecSubmissionError

-- `into_buffer` and `into_buffers`.
unfoldable pub into_buffer : OutputBufferSubmissionError → BytesMut
into_buffer (invalid_output_buffer e) = e.buffer
into_buffer (invalid_io_vec b e) = b

unfoldable pub into_buffers : OutputBufferVecSubmissionError → List BytesMut
into_buffers (invalid_output_buffer e) = e.buffer
into_buffers (invalid_io_vec bs e) = bs

-- `std::mem::take` of the buffer.
unfoldable pub emptied : OutputBufferSubmissionError → OutputBufferSubmissionError
emptied (invalid_output_buffer e) = invalid_output_buffer (record { buffer = no_bytes })
emptied (invalid_io_vec b e) = invalid_io_vec no_bytes e

unfoldable pub emptied_vec : OutputBufferVecSubmissionError → OutputBufferVecSubmissionError
emptied_vec (invalid_output_buffer e) = invalid_output_buffer (record { buffer = [] })
emptied_vec (invalid_io_vec bs e) = invalid_io_vec [] e

module _ (Other C P Q : Type 0) (get_completion : IoType Other → ℕ → C × IoType Other) where
  -- The operations, as those that complete.
  abbrev pub operations : Completable
  operations = record {
    IoType = IoType Other;
    Completion = C;
    Failure = IoFailure;
    get_completion = get_completion;
    get_failure = get_failure Other;
  }

  pub data Message : Type 0 where
    submit_io : IoOperation operations → Message
    other_message : Q → Message

  pub data WorkerDispatchError : Type 0 where
    failed_to_find_worker : IoOperation operations → WorkerDispatchError
    failed_to_send_message : Message → WorkerDispatchError

  pub data IoSubmissionError : Type 0 where
    unsupported_address_family : P → IoSubmissionError
    string_with_interior_null_bytes : P → IoSubmissionError
    failed_to_prepare_control_messages : P → IoSubmissionError
    failed_to_dispatch_operation : WorkerDispatchError → IoSubmissionError
    input_buffer_submission_error : P → IoSubmissionError
    input_buffer_vec_submission_error : P → IoSubmissionError
    output_buffer_submission_error : OutputBufferSubmissionError → IoSubmissionError
    output_buffer_vec_submission_error : OutputBufferVecSubmissionError → IoSubmissionError
    recv_msg_buffers_submission_error : RecvMsgSubmissionError → IoSubmissionError
    invalid_io_input_buffer_error : InvalidIoVecError → IoSubmissionError

  pub data IoError : Type 0 where
    submission : IoSubmissionError → IoError
    operation : IoOperationError operations → IoError
    processing : P → IoError

  -- The arm of `FailedToDispatchOperation`, with what the operation gives.
  unfoldable pub from_dispatch {ℓ} :
      {A : Type ℓ} → (IoType Other → Option A) → WorkerDispatchError → Option A
  from_dispatch get (failed_to_find_worker op) = get op.t
  from_dispatch get (failed_to_send_message (submit_io op)) = get op.t
  from_dispatch get (failed_to_send_message (other_message q)) = none

  unfoldable pub left_in_dispatch {ℓ} :
      {A : Type ℓ} → (IoType Other → A × IoType Other) → WorkerDispatchError → WorkerDispatchError
  left_in_dispatch take (failed_to_find_worker op) =
      failed_to_find_worker (record op { t = (take op.t).1 })
  left_in_dispatch take (failed_to_send_message (submit_io op)) =
      failed_to_send_message (submit_io (record op { t = (take op.t).1 }))
  left_in_dispatch take (failed_to_send_message (other_message q)) =
      failed_to_send_message (other_message q)

  unfoldable pub submission_into_bytes_mut : IoSubmissionError → Option BytesMut
  unfolding from_dispatch into_buffer Operations.into_bytes_mut
  submission_into_bytes_mut (failed_to_dispatch_operation e) =
      from_dispatch (Operations.into_bytes_mut Other) e
  submission_into_bytes_mut (output_buffer_submission_error e) = some (into_buffer e)
  submission_into_bytes_mut (recv_msg_buffers_submission_error e) = e.buffers.control
  submission_into_bytes_mut e = none

  unfoldable pub submission_into_vec : IoSubmissionError → Option (List BytesMut)
  unfolding from_dispatch into_buffers Operations.into_vec
  submission_into_vec (failed_to_dispatch_operation e) = from_dispatch (Operations.into_vec Other) e
  submission_into_vec (output_buffer_vec_submission_error e) = some (into_buffers e)
  submission_into_vec (recv_msg_buffers_submission_error e) = e.buffers.data_
  submission_into_vec e = none

  unfoldable pub submission_into_recvmsg_buffers : IoSubmissionError → Option RecvMsgBuffers
  unfolding from_dispatch Operations.into_recvmsg_buffers
  submission_into_recvmsg_buffers (failed_to_dispatch_operation e) =
      from_dispatch (Operations.into_recvmsg_buffers Other) e
  submission_into_recvmsg_buffers (recv_msg_buffers_submission_error e) = some e.buffers
  submission_into_recvmsg_buffers e = none

  unfoldable pub failure_into_bytes_mut : IoFailure → Option BytesMut
  failure_into_bytes_mut (read b) = some b
  failure_into_bytes_mut f = none

  unfoldable pub failure_into_vec : IoFailure → Option (List BytesMut)
  failure_into_vec (multi_read bs) = some bs
  failure_into_vec f = none

  unfoldable pub failure_into_recvmsg_buffers : IoFailure → Option RecvMsgBuffers
  failure_into_recvmsg_buffers (msg bs) = some bs
  failure_into_recvmsg_buffers f = none

  unfoldable pub into_bytes_mut : IoError → Option BytesMut
  unfolding submission_into_bytes_mut failure_into_bytes_mut
  into_bytes_mut (submission e) = submission_into_bytes_mut e
  into_bytes_mut (operation e) = failure_into_bytes_mut e.failure
  into_bytes_mut (processing p) = none

  unfoldable pub into_vec : IoError → Option (List BytesMut)
  unfolding submission_into_vec failure_into_vec
  into_vec (submission e) = submission_into_vec e
  into_vec (operation e) = failure_into_vec e.failure
  into_vec (processing p) = none

  unfoldable pub into_recvmsg_buffers : IoError → Option RecvMsgBuffers
  unfolding submission_into_recvmsg_buffers failure_into_recvmsg_buffers
  into_recvmsg_buffers (submission e) = submission_into_recvmsg_buffers e
  into_recvmsg_buffers (operation e) = failure_into_recvmsg_buffers e.failure
  into_recvmsg_buffers (processing p) = none
