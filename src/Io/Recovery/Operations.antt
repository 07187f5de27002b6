-- ===== src/Io/Recovery/Operations.antt =====
-- src/io/operation/mod.rs and src/io/operation/data: the buffers that are recovered from an operation.
--
-- `into` gives up the operation; `take` gives what is taken, and the operation that is left.
use cl_async.Base.{◌≡◌, refl, Option, none, some, List}
use cl_async.Io.Buffers.{BytesMut}
use cl_async.Io.Buffers.Messages.{
  RecvMsgBuffers, IoRecvMsgOutputBuffers, unwrap, into_vecs, into_control,
}
use cl_async.Io.Recovery.{IoType, read, recv, readv, recv_msg, other}

-- The parts of a pending message: `split`, and `take` of one of its buffers.
unfoldable control_of : Option IoRecvMsgOutputBuffers → Option BytesMut
unfolding into_control
control_of none = none
control_of (some p) = into_control p.control

unfoldable data_of : Option IoRecvMsgOutputBuffers → Option (List BytesMut)
unfolding into_vecs
data_of none = none
data_of (some p) = into_vecs p.data_

unfoldable buffers_of : Option IoRecvMsgOutputBuffers → Option RecvMsgBuffers
unfolding unwrap
buffers_of none = none
buffers_of (some p) = some (unwrap p)

unfoldable without_control : Option IoRecvMsgOutputBuffers → Option IoRecvMsgOutputBuffers
without_control none = none
without_control (some p) = some (record p { control = none })

unfoldable without_data : Option IoRecvMsgOutputBuffers → Option IoRecvMsgOutputBuffers
without_data none = none
without_data (some p) = some (record p { data_ = none })

control_of-without_control :
    (p : Option IoRecvMsgOutputBuffers) → control_of (without_control p) ≡ none
unfolding control_of without_control into_control
control_of-without_control none = refl
control_of-without_control (some p) = refl

data_of-without_control :
    (p : Option IoRecvMsgOutputBuffers) → data_of (without_control p) ≡ data_of p
unfolding data_of without_control
data_of-without_control none = refl
data_of-without_control (some p) = refl

data_of-without_data : (p : Option IoRecvMsgOutputBuffers) → data_of (without_data p) ≡ none
unfolding data_of without_data into_vecs
data_of-without_data none = refl
data_of-without_data (some p) = refl

control_of-without_data :
    (p : Option IoRecvMsgOutputBuffers) → control_of (without_data p) ≡ control_of p
unfolding control_of without_data
control_of-without_data none = refl
control_of-without_data (some p) = refl

module _ (Other : Type 0) where
  unfoldable pub into_bytes_mut : IoType Other → Option BytesMut
  unfolding into_control control_of
  into_bytes_mut (read d) = into_control d.buffer
  into_bytes_mut (recv d) = into_control d.buffer
  into_bytes_mut (readv d) = none
  into_bytes_mut (recv_msg d) = control_of d.pending_msg
  into_bytes_mut (other d) = none

  unfoldable pub take_bytes_mut : IoType Other → Option BytesMut × IoType Other
  unfolding into_control control_of without_control
  take_bytes_mut (read d) = (into_control d.buffer, read (record d { buffer = none }))
  take_bytes_mut (recv d) = (into_control d.buffer, recv (record d { buffer = none }))
  take_bytes_mut (readv d) = (none, readv d)
  take_bytes_mut (recv_msg d) = (
    control_of d.pending_msg,
    recv_msg (record d { pending_msg = without_control d.pending_msg }),
  )
  take_bytes_mut (other d) = (none, other d)

  unfoldable pub into_vec : IoType Other → Option (List BytesMut)
  unfolding into_vecs data_of
  into_vec (read d) = none
  into_vec (recv d) = none
  into_vec (readv d) = into_vecs d.iovec
  into_vec (recv_msg d) = data_of d.pending_msg
  into_vec (other d) = none

  unfoldable pub take_vec : IoType Other → Option (List BytesMut) × IoType Other
  unfolding into_vecs data_of without_data
  take_vec (read d) = (none, read d)
  take_vec (recv d) = (none, recv d)
  take_vec (readv d) = (into_vecs d.iovec, readv (record d { iovec = none }))
  take_vec (recv_msg d) =
      (data_of d.pending_msg, recv_msg (record d { pending_msg = without_data d.pending_msg }))
  take_vec (other d) = (none, other d)

  unfoldable pub into_recvmsg_buffers : IoType Other → Option RecvMsgBuffers
  unfolding buffers_of
  into_recvmsg_buffers (read d) = none
  into_recvmsg_buffers (recv d) = none
  into_recvmsg_buffers (readv d) = none
  into_recvmsg_buffers (recv_msg d) = buffers_of d.pending_msg
  into_recvmsg_buffers (other d) = none

  unfoldable pub take_recvmsg_buffers : IoType Other → Option RecvMsgBuffers × IoType Other
  unfolding buffers_of without_control without_data
  take_recvmsg_buffers (read d) = (none, read d)
  take_recvmsg_buffers (recv d) = (none, recv d)
  take_recvmsg_buffers (readv d) = (none, readv d)
  take_recvmsg_buffers (recv_msg d) = (
    buffers_of d.pending_msg,
    recv_msg (record d { pending_msg = without_control (without_data d.pending_msg) }),
  )
  take_recvmsg_buffers (other d) = (none, other d)

  -- What a take of bytes gives and leaves.
  pub into_vec-take_bytes_mut :
      (t : IoType Other)
      → ((take_bytes_mut t).0 ≡ into_bytes_mut t)
        × ((into_bytes_mut (take_bytes_mut t).1 ≡ none)
            × (into_vec (take_bytes_mut t).1 ≡ into_vec t))
  unfolding take_bytes_mut into_bytes_mut into_vec into_control
  into_vec-take_bytes_mut (read d) = (refl, (refl, refl))
  into_vec-take_bytes_mut (recv d) = (refl, (refl, refl))
  into_vec-take_bytes_mut (readv d) = (refl, (refl, refl))
  into_vec-take_bytes_mut (recv_msg d) =
      (refl, (control_of-without_control d.pending_msg, data_of-without_control d.pending_msg))
  into_vec-take_bytes_mut (other d) = (refl, (refl, refl))

  pub into_bytes_mut-take_vec :
      (t : IoType Other)
      → ((take_vec t).0 ≡ into_vec t)
        × ((into_vec (take_vec t).1 ≡ none) × (into_bytes_mut (take_vec t).1 ≡ into_bytes_mut t))
  unfolding take_vec into_bytes_mut into_vec into_vecs
  into_bytes_mut-take_vec (read d) = (refl, (refl, refl))
  into_bytes_mut-take_vec (recv d) = (refl, (refl, refl))
  into_bytes_mut-take_vec (readv d) = (refl, (refl, refl))
  into_bytes_mut-take_vec (recv_msg d) =
      (refl, (data_of-without_data d.pending_msg, control_of-without_data d.pending_msg))
  into_bytes_mut-take_vec (other d) = (refl, (refl, refl))
