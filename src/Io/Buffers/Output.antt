-- ===== src/Io/Buffers/Output.antt =====
-- src/io/buffers.rs: the buffers that the kernel writes into.
pub mod Scatter
pub mod Taken
use cl_async.Base.{
  ℕ, zero, suc, ◌+◌, ◌-◌, ◌==◌, min, ltb, leb, if◌then◌else◌, List, [], ◌∷◌, ◌++◌, length, Result,
  ok, err,
}
use cl_async.Io.Buffers.{
  BytesMut, BytesCrate, capacity, spare, chunk_mut, advance_mut, InvalidIoVecError, valid_iovecs,
}

pub record IoOutputBuffer : Type 0 where
  pub bytes : BytesMut

pub record EmptyIoOutputBufferError : Type 0 where
  pub buffer : BytesMut

pub data IoOutputBufferIntoBytesError : Type 0 where
  buffer_overflow : (requested available : ℕ) (buffer : BytesMut) → IoOutputBufferIntoBytesError

-- `IoOutputBuffer::new`.
unfoldable pub new_output : BytesMut → Result IoOutputBuffer EmptyIoOutputBufferError
new_output b = if capacity b == 0 then err (record { buffer = b }) else ok (record { bytes = b })

pub record IoVecOutputBuffer : Type 0 where
  pub buffers : List BytesMut

pub record EmptyVectoredOutputBufferError : Type 0 where
  pub buffer : List BytesMut

pub data IoVecOutputBufferIntoBytesError : Type 0 where
  buffer_overflow :
      (requested available : ℕ) (buffers : List BytesMut) → IoVecOutputBufferIntoBytesError

-- `IoVecOutputBuffer::new`.
unfoldable pub new_vectored :
    List BytesMut → Result IoVecOutputBuffer EmptyVectoredOutputBufferError
new_vectored [] = err (record { buffer = [] })
new_vectored (b ∷ buffers) = ok (record { buffers = b ∷ buffers })

-- An `iovec` to write through: the place of the buffer, where in its memory, and how much.
pub record Iovec : Type 0 where
  pub buffer : ℕ
  pub offset : ℕ
  pub iov_len : ℕ

-- The loop of `generate_iovecs` for a `Vec<BytesMut>`, from a place on: full buffers are left out.
unfoldable pub spare_iovecs : ℕ → List BytesMut → List Iovec
spare_iovecs i [] = []
spare_iovecs i (b ∷ bs) =
    let rest = spare_iovecs (suc i) bs in
    if leb (capacity b) b.len
    then rest
    else record { buffer = i; offset = b.len; iov_len = capacity b - b.len } ∷ rest

unfoldable pub output_iovecs : ℕ → IoVecOutputBuffer → Result (List Iovec) InvalidIoVecError
unfolding spare_iovecs valid_iovecs
output_iovecs max out = valid_iovecs max (spare_iovecs 0 out.buffers)

module _ (G : BytesCrate) where
  -- `IoOutputBuffer::writable_len` and `into_bytes`.
  unfoldable pub writable_len : IoOutputBuffer → ℕ
  unfolding chunk_mut
  writable_len out = spare (chunk_mut G out.bytes)

  unfoldable pub into_bytes : IoOutputBuffer → ℕ → Result BytesMut IoOutputBufferIntoBytesError
  unfolding chunk_mut
  into_bytes out n =
      let grown = chunk_mut G out.bytes in
      let chunk_len = spare grown in
      let advanced = advance_mut (min n chunk_len) grown in
      if ltb chunk_len n
      then err (IoOutputBufferIntoBytesError.buffer_overflow n chunk_len advanced)
      else ok advanced

  -- The loop of `IoVecOutputBuffer::into_bytes`: the buffers, and `accounted_bytes`.
  unfoldable pub account : ℕ → ℕ → List BytesMut → List BytesMut × ℕ
  unfolding chunk_mut
  account total accounted [] = ([], accounted)
  account total accounted (b ∷ bs) =
      let grown = chunk_mut G b in
      let bytes_in_this_buffer = min (total - accounted) (spare grown) in
      let (later, sum) = account total (accounted + bytes_in_this_buffer) bs in
      (advance_mut bytes_in_this_buffer grown ∷ later, sum)

  unfoldable pub into_bytes_vectored :
      IoVecOutputBuffer → ℕ → Result (List BytesMut) IoVecOutputBufferIntoBytesError
  unfolding account
  into_bytes_vectored out total_bytes =
      let (buffers, accounted) = account total_bytes 0 out.buffers in
      if ltb accounted total_bytes
      then err (IoVecOutputBufferIntoBytesError.buffer_overflow total_bytes accounted buffers)
      else ok buffers
