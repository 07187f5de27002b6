-- ===== src/Io/Buffers/Messages.antt =====
-- src/io/buffers.rs: the buffers of a `recvmsg`.
use cl_async.Base.{
  ◌≡◌, refl, ◌==◌, ltb, ◌&&◌, Bool, Bool-cases, true, false, inl, inr, List, [], ◌∷◌, ◌++◌, Option,
  none, some, Result, ok, err, arith,
}
use cl_async.Io.Buffers.{BytesMut, capacity, InvalidIoVecError}
use cl_async.Io.Buffers.Output.{IoOutputBuffer, IoVecOutputBuffer, new_output, new_vectored}

pub record RecvMsgBuffers : Type 0 where
  pub data_ : Option (List BytesMut)
  pub control : Option BytesMut

unfoldable pub add_data : BytesMut → RecvMsgBuffers → RecvMsgBuffers
add_data b buffers = record buffers {
  data_ = elim buffers.data_ [ none ↦ some (b ∷ []) | some bs ↦ some (bs ++ b ∷ []) ];
}

unfoldable pub extend_data : List BytesMut → RecvMsgBuffers → RecvMsgBuffers
extend_data more buffers = record buffers {
  data_ = elim buffers.data_ [ none ↦ some more | some bs ↦ some (bs ++ more) ];
}

pub data RecvMsgSubmissionErrorKind : Type 0 where
  invalid_data_buffer : RecvMsgSubmissionErrorKind
  invalid_control_buffer : RecvMsgSubmissionErrorKind
  invalid_io_vec : InvalidIoVecError → RecvMsgSubmissionErrorKind

pub record RecvMsgSubmissionError : Type 0 where
  pub buffers : RecvMsgBuffers
  pub kind : RecvMsgSubmissionErrorKind

pub record IoRecvMsgOutputBuffers : Type 0 where
  pub data_ : Option IoVecOutputBuffer
  pub control : Option IoOutputBuffer

-- `data.map(|d| d.into_vec())`.
unfoldable pub into_vecs : Option IoVecOutputBuffer → Option (List BytesMut)
into_vecs none = none
into_vecs (some d) = some d.buffers

-- The second half of `prepare`, on the data that is checked.
unfoldable pub prepare_control :
    Option IoVecOutputBuffer
    → Option BytesMut
    → Result IoRecvMsgOutputBuffers RecvMsgSubmissionError
unfolding new_output into_vecs
prepare_control data_ none = ok (record { data_ = data_; control = none })
prepare_control data_ (some control) = elim (new_output control) [
  | ok control ↦ ok (record { data_ = data_; control = some control })
  | err e ↦ err (record {
    buffers = record { data_ = into_vecs data_; control = some e.buffer };
    kind = RecvMsgSubmissionErrorKind.invalid_control_buffer;
  })
]

-- `RecvMsgBuffers::prepare`.
unfoldable pub prepare : RecvMsgBuffers → Result IoRecvMsgOutputBuffers RecvMsgSubmissionError
unfolding new_vectored prepare_control
prepare buffers = elim buffers.data_ [
  | none ↦ prepare_control none buffers.control
  | some bs ↦ elim (new_vectored bs) [
    | ok d ↦ prepare_control (some d) buffers.control
    | err e ↦ err (record {
      buffers = record { data_ = some e.buffer; control = buffers.control };
      kind = RecvMsgSubmissionErrorKind.invalid_data_buffer;
    })
  ]
]

unfoldable pub into_control : Option IoOutputBuffer → Option BytesMut
into_control none = none
into_control (some c) = some c.bytes

-- `IoRecvMsgOutputBuffers::unwrap`.
unfoldable pub unwrap : IoRecvMsgOutputBuffers → RecvMsgBuffers
unfolding into_vecs into_control
unwrap out = record { data_ = into_vecs out.data_; control = into_control out.control }

-- What a client gets back, whether the buffers were accepted or not.
abbrev pub given_back : Result IoRecvMsgOutputBuffers RecvMsgSubmissionError → RecvMsgBuffers
given_back (ok out) = unwrap out
given_back (err e) = e.buffers

-- The buffers that can be submitted: a vector that is not empty, a control buffer of some capacity.
abbrev data_fits : Option (List BytesMut) → Bool
data_fits (some []) = false
data_fits d = true

abbrev control_fits : Option BytesMut → Bool
control_fits none = true
control_fits (some c) = ltb 0 (capacity c)

abbrev pub acceptable : RecvMsgBuffers → Bool
acceptable buffers = data_fits buffers.data_ && control_fits buffers.control

abbrev pub is_ok : Result IoRecvMsgOutputBuffers RecvMsgSubmissionError → Bool
is_ok (ok out) = true
is_ok (err e) = false

Checked : Option (List BytesMut) → Option BytesMut → Type 0
Checked d c =
    (given_back (prepare (record { data_ = d; control = c })) ≡ record { data_ = d; control = c })
    × (is_ok (prepare (record { data_ = d; control = c })) ≡ (data_fits d && control_fits c))

control_checked :
    (d : Option IoVecOutputBuffer) (c : Option BytesMut)
    → (given_back (prepare_control d c) ≡ record { data_ = into_vecs d; control = c })
      × (is_ok (prepare_control d c) ≡ control_fits c)
unfolding prepare_control new_output unwrap into_control
control_checked d none = (refl, refl)
control_checked d (some c) = elim (Bool-cases (capacity c == 0)) [
  | inl empty ↦
      let small : ltb 0 (capacity c) ≡ false = ground arith in
      rw (empty, prepare_control, small) (refl, refl)
  | inr room ↦
      let some_ : ltb 0 (capacity c) ≡ true = ground arith in
      rw (room, prepare_control, some_) (refl, refl)
]

checked : (d : Option (List BytesMut)) (c : Option BytesMut) → Checked d c
unfolding Checked prepare new_vectored into_vecs
checked none c = control_checked none c
checked (some []) c = (refl, refl)
checked (some (b ∷ bs)) c = control_checked (some (record { buffers = b ∷ bs })) c

-- Every buffer comes back, accepted or not, and exactly the acceptable ones are accepted.
pub prepare_lem :
    (buffers : RecvMsgBuffers)
    → (given_back (prepare buffers) ≡ buffers) × (is_ok (prepare buffers) ≡ acceptable buffers)
unfolding Checked
prepare_lem buffers = checked buffers.data_ buffers.control
