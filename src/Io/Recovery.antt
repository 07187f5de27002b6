-- ===== src/Io/Recovery.antt =====
-- src/io/operation/data and src/io/failure.rs: the operations that hold buffers of their client, and what
-- is left of them when they fail.
--
-- The data of the other operations is the parameter `Other`: none of them has a `get_failure` of its own,
-- and nothing is recovered from them. Of a pending message only its buffers are kept, since its pointers
-- are made from these.
pub mod Errors
pub mod Growth
pub mod Kept
pub mod Operations
pub mod Taking
pub mod Ways
use cl_async.Base.{ℕ, Option, none, some, List, [], Result, ok, err}
use cl_async.Base.Int.{ℤ}
use cl_async.Io.Buffers.{BytesMut, BytesCrate, InvalidIoVecError, chunk_mut}
use cl_async.Io.Buffers.Output.{IoOutputBuffer, IoVecOutputBuffer, Iovec, output_iovecs}
use cl_async.Io.Buffers.Messages.{
  RecvMsgBuffers, RecvMsgSubmissionError, RecvMsgSubmissionErrorKind, IoRecvMsgOutputBuffers,
  unwrap, into_vecs, into_control,
}

pub record IoReadData : Type 0 where
  pub buffer : Option IoOutputBuffer
  pub offset : ℕ

pub record IoRecvData : Type 0 where
  pub buffer : Option IoOutputBuffer
  pub flags : ℤ

pub record IoReadvData : Type 0 where
  pub iovec : Option IoVecOutputBuffer
  pub iovec_ptr : List Iovec
  pub offset : ℕ

pub record IoRecvMsgData : Type 0 where
  pub flags : ℤ
  pub pending_msg : Option IoRecvMsgOutputBuffers

-- `IoReadvData::new`: the error of the vectors leaves the buffers behind.
unfoldable pub new_readv : ℕ → IoVecOutputBuffer → ℕ → Result IoReadvData InvalidIoVecError
unfolding output_iovecs
new_readv max buffers offset = elim (output_iovecs max buffers) [
  | ok v ↦ ok (record { iovec = some buffers; iovec_ptr = v; offset = offset })
  | err e ↦ err e
]

-- `as_mut_ptr` and `writable_len` of a buffer, one after the other: each is a `chunk_mut`.
unfoldable pub made_writable : BytesCrate → Option IoOutputBuffer → Option IoOutputBuffer
unfolding chunk_mut
made_writable G none = none
made_writable G (some out) = some (record { bytes = chunk_mut G (chunk_mut G out.bytes) })

-- `IoRecvMsgData::new`, by `PendingIoMessageInner::new`: the header points at the control buffer.
unfoldable pub new_recv_msg :
    BytesCrate → ℕ → IoRecvMsgOutputBuffers → ℤ → Result IoRecvMsgData RecvMsgSubmissionError
unfolding output_iovecs unwrap made_writable
new_recv_msg G max buffers flags =
    let pending : IoRecvMsgData = record {
      flags = flags;
      pending_msg = some (record buffers { control = made_writable G buffers.control });
    } in
    elim buffers.data_ [
      | none ↦ ok pending
      | some d ↦ elim (output_iovecs max d) [
        | ok v ↦ ok pending
        | err e ↦ err (record {
          buffers = unwrap buffers;
          kind = RecvMsgSubmissionErrorKind.invalid_io_vec e;
        })
      ]
    ]

pub data IoFailure : Type 0 where
  generic : IoFailure
  read : BytesMut → IoFailure
  multi_read : List BytesMut → IoFailure
  msg : RecvMsgBuffers → IoFailure

module _ (Other : Type 0) where
  pub data IoType : Type 0 where
    read : IoReadData → IoType
    recv : IoRecvData → IoType
    readv : IoReadvData → IoType
    recv_msg : IoRecvMsgData → IoType
    other : Other → IoType

-- `BytesMut::new()` and `RecvMsgBuffers::default()`.
abbrev pub no_bytes : BytesMut
no_bytes = record { memory = []; len = 0 }

abbrev pub no_buffers : RecvMsgBuffers
no_buffers = record { data_ = none; control = none }

unfoldable pub or_else {ℓ} : {A : Type ℓ} → A → Option A → A
or_else d none = d
or_else d (some x) = x

-- The buffers of a failed `recvmsg`.
unfoldable pub msg_failure : Option IoRecvMsgOutputBuffers → RecvMsgBuffers
unfolding into_vecs into_control
msg_failure none = no_buffers
msg_failure (some p) = record { data_ = into_vecs p.data_; control = into_control p.control }

module _ (Other : Type 0) where
  -- `get_failure`, for each operation.
  unfoldable pub get_failure : IoType Other → IoFailure × IoType Other
  unfolding into_control into_vecs or_else msg_failure
  get_failure (read d) =
      (read (or_else no_bytes (into_control d.buffer)), read (record d { buffer = none }))
  get_failure (recv d) =
      (read (or_else no_bytes (into_control d.buffer)), recv (record d { buffer = none }))
  get_failure (readv d) =
      (multi_read (or_else [] (into_vecs d.iovec)), readv (record d { iovec = none }))
  get_failure (recv_msg d) =
      (msg (msg_failure d.pending_msg), recv_msg (record d { pending_msg = none }))
  get_failure (other d) = (generic, other d)

  -- `as_uring_entry`: what making the entry of the ring leaves of the operation. The entries of the others
  -- point at what they have.
  unfoldable pub with_entry : BytesCrate → IoType Other → IoType Other
  unfolding made_writable
  with_entry G (read d) = read (record d { buffer = made_writable G d.buffer })
  with_entry G (recv d) = recv (record d { buffer = made_writable G d.buffer })
  with_entry G (readv d) = readv d
  with_entry G (recv_msg d) = recv_msg d
  with_entry G (other d) = other d
