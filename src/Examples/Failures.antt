-- ===== src/Examples/Failures.antt =====
-- Reads of src/io that fail, and the buffers that come back.
use cl_async.Base.{ℕ, some, [], ◌∷◌}
use cl_async.Io.Buffers.{BytesMut}
use cl_async.Io.Buffers.Messages.{RecvMsgBuffers, RecvMsgSubmissionErrorKind}
use cl_async.Io.Recovery.{IoType}
use cl_async.Io.Recovery.Errors.{IoError, submission, recv_msg_buffers_submission_error}
use cl_async.Io.Recovery.Taking.Left.{BytesTaken, VecTaken, takes-leave}

-- A completion is its number of bytes; the operation stays.
abbrev counted : IoType ℕ → ℕ → ℕ × IoType ℕ
counted t n = (n, t)

abbrev four : BytesMut
four = record { memory = 1 ∷ 2 ∷ 0 ∷ 0 ∷ []; len = 2 }

abbrev unallocated : BytesMut
unallocated = record { memory = []; len = 0 }

abbrev with_control : RecvMsgBuffers
with_control = record { data_ = some (four ∷ []); control = some four }

abbrev refused : IoError ℕ ℕ ℕ ℕ counted
refused = submission (
    recv_msg_buffers_submission_error
      (record { buffers = with_control; kind = RecvMsgSubmissionErrorKind.invalid_control_buffer }))

takes-leave_example : BytesTaken ℕ ℕ ℕ ℕ counted refused × VecTaken ℕ ℕ ℕ ℕ counted refused
takes-leave_example = takes-leave ℕ ℕ ℕ ℕ counted refused
