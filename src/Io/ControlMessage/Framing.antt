-- ===== src/Io/ControlMessage/Framing.antt =====
-- src/io/message.rs, `IoControlMessage`: several control messages in one buffer.
--
-- The loop over a buffer passes the bytes from its offset on; `none` is a loop that ran out of its rounds. A
-- round takes a header at least, unless its length wraps as a `c_uint`: as many rounds as there are bytes are
-- enough when none does.
pub mod Frames
pub mod Slices
use cl_async.Base.{
  ℕ, zero, suc, ◌+◌, ◌-◌, ltb, if◌then◌else◌, List, [], ◌∷◌, ◌++◌, length, drop, Option, none, some,
  Result, ok, err,
}
use cl_async.Io.ControlMessage.{
  RawControlMessageIn, RawControlMessageOut, CmsgHeader, Cmsg, ControlMessage, as_c_uint,
}

module _ (C : Cmsg) (M : ControlMessage) where
  pub data ParseSliceError : Type 0 where
    invalid_control_message_length : (expected actual : ℕ) → ParseSliceError
    invalid_control_message : M.ParseError → ParseSliceError

  -- The end of `try_parse_single`.
  unfoldable pub parsed : Result M.Message M.ParseError → Result M.Message ParseSliceError
  parsed (ok m) = ok m
  parsed (err e) = err (invalid_control_message e)

  -- `try_parse_single`, on what lies behind the pointer, which is not null.
  unfoldable pub try_parse_single : List ℕ → Result M.Message ParseSliceError
  unfolding parsed
  try_parse_single bytes =
      let cmsg_val = C.header.read bytes in
      if ltb cmsg_val.cmsg_len C.header.size
      then err (invalid_control_message_length C.header.size cmsg_val.cmsg_len)
      else parsed (
          M.parse (record {
            message_level = cmsg_val.cmsg_level;
            message_type = cmsg_val.cmsg_type;
            data_len = cmsg_val.cmsg_len - C.header.size;
            data_ptr = drop C.header.size bytes;
          }))

  -- The bytes from the next offset on.
  unfoldable pub next_message : List ℕ → List ℕ
  unfolding as_c_uint
  next_message bytes =
      drop (C.space (as_c_uint ((C.header.read bytes).cmsg_len - C.header.size))) bytes

  unfoldable pub parse_loop :
      ℕ → List ℕ → List M.Message → Option (Result (List M.Message) ParseSliceError)
  unfolding try_parse_single next_message
  parse_loop rounds [] messages = some (ok messages)
  parse_loop zero (b ∷ bytes) messages = none
  parse_loop (suc rounds) (b ∷ bytes) messages = elim (try_parse_single (b ∷ bytes)) [
    | err e ↦ some (err e)
    | ok m ↦ parse_loop rounds (next_message (b ∷ bytes)) (messages ++ m ∷ [])
  ]

  -- `try_parse_from_slice`.
  unfoldable pub try_parse_from_slice : List ℕ → Option (Result (List M.Message) ParseSliceError)
  unfolding parse_loop
  try_parse_from_slice cmsgs = parse_loop (length cmsgs) cmsgs []

  -- One message as it stands in the buffer. Where the length of a payload wraps, the source copies the
  -- payload over the end of its memory, and the list says nothing of that.
  unfoldable pub frame : RawControlMessageOut → List ℕ
  unfolding as_c_uint
  frame raw =
      let n = length raw.payload in
      C.header.write (record {
        cmsg_len = C.len (as_c_uint n);
        cmsg_level = raw.message_level;
        cmsg_type = raw.message_type;
      })
      ++ (raw.payload ++ C.padding (C.space (as_c_uint n) - (C.header.size + n)))

  unfoldable pub frames : List RawControlMessageOut → List ℕ
  unfolding frame
  frames [] = []
  frames (raw ∷ raws) = frame raw ++ frames raws

  -- `try_prepare`.
  unfoldable pub try_prepare : M.Message → Result (List ℕ) M.PrepareError
  unfolding frame
  try_prepare m = elim (M.prepare m) [ ok raw ↦ ok (frame raw) | err e ↦ err e ]

  -- The first loop of `try_prepare_multi`: the first failure ends it.
  unfoldable pub prepare_each : List M.Message → Result (List RawControlMessageOut) M.PrepareError
  prepare_each [] = ok []
  prepare_each (m ∷ msgs) =
      let later = prepare_each msgs in
      elim (M.prepare m) [
        | err e ↦ err e
        | ok raw ↦ elim later [ err e ↦ err e | ok raws ↦ ok (raw ∷ raws) ]
      ]

  -- `try_prepare_multi`.
  unfoldable pub try_prepare_multi : List M.Message → Result (List ℕ) M.PrepareError
  unfolding prepare_each frames
  try_prepare_multi msgs = elim (prepare_each msgs) [ err e ↦ err e | ok raws ↦ ok (frames raws) ]
