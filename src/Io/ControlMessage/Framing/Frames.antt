-- ===== src/Io/ControlMessage/Framing/Frames.antt =====
-- src/io/message.rs: one control message in a buffer, whose length does not wrap.
use mathlib.Core.List.{append_assoc}
use cl_async.Base.{
  ℕ, ◌+◌, ◌-◌, ◌^◌, ◌<◌, ◌≡◌, refl, sym, ap, ap₂, ◌∙◌, ltb, false, List, ◌++◌, length,
  length-append, drop, drop-append, ok, arith,
}
use cl_async.Io.ControlMessage.{RawControlMessageOut, CmsgHeader, Cmsg, ControlMessage, as_c_uint}
use cl_async.Io.ControlMessage.Copies.{arrived}
use cl_async.Io.ControlMessage.Framing.{parsed, try_parse_single, next_message, frame}

module _ (C : Cmsg) (M : ControlMessage) where
  pub as_c_uint-small : (n : ℕ) → n + C.overhead < 2 ^ 32 → as_c_uint n ≡ n
  unfolding as_c_uint
  as_c_uint-small n h = omega arith

  -- A message whose length does not wrap.
  abbrev pub IsSmall : RawControlMessageOut → Type 0
  IsSmall raw = length raw.payload + C.overhead < 2 ^ 32

  abbrev pub header_of : RawControlMessageOut → CmsgHeader
  header_of raw = record {
    cmsg_len = C.header.size + length raw.payload;
    cmsg_level = raw.message_level;
    cmsg_type = raw.message_type;
  }

  gap : RawControlMessageOut → List ℕ
  gap raw = C.padding (C.space (length raw.payload) - (C.header.size + length raw.payload))

  -- The frame of a small message.
  unfoldable pub plain_frame : RawControlMessageOut → List ℕ
  unfolding gap
  plain_frame raw = C.header.write (header_of raw) ++ (raw.payload ++ gap raw)

  pub frame-small : (raw : RawControlMessageOut) → IsSmall raw → frame C M raw ≡ plain_frame raw
  unfolding frame plain_frame gap
  frame-small raw small =
      rw (as_c_uint-small (length raw.payload) small, C.len_lem (length raw.payload) small) refl

  -- What a frame and the bytes after it are made of.
  frame-append :
      (raw : RawControlMessageOut) (rest : List ℕ)
      → plain_frame raw ++ rest
        ≡ C.header.write (header_of raw) ++ (raw.payload ++ (gap raw ++ rest))
  unfolding plain_frame gap
  frame-append raw rest =
      append_assoc (C.header.write (header_of raw)) (raw.payload ++ gap raw) rest
      ∙ ap (λ l. C.header.write (header_of raw) ++ l) (append_assoc raw.payload (gap raw) rest)

  read-frame :
      (raw : RawControlMessageOut) (rest : List ℕ)
      → C.header.IsValue (header_of raw)
      → C.header.read (plain_frame raw ++ rest) ≡ header_of raw
  read-frame raw rest v =
      ap C.header.read (frame-append raw rest) ∙ C.header.read-write (header_of raw) _ v

  drop-frame :
      (raw : RawControlMessageOut) (rest : List ℕ)
      → C.header.IsValue (header_of raw)
      → drop C.header.size (plain_frame raw ++ rest) ≡ raw.payload ++ (gap raw ++ rest)
  drop-frame raw rest v =
      ap (drop C.header.size) (frame-append raw rest)
      ∙ ap (λ n. drop n (C.header.write (header_of raw) ++ (raw.payload ++ (gap raw ++ rest))))
          (sym (C.header.length-write (header_of raw) v))
      ∙ drop-append (C.header.write (header_of raw)) _

  length-frame :
      (raw : RawControlMessageOut)
      → IsSmall raw
      → C.header.IsValue (header_of raw)
      → length (plain_frame raw) ≡ C.space (length raw.payload)
  unfolding plain_frame gap
  length-frame raw small v =
      let n = length raw.payload in
      length-append (C.header.write (header_of raw)) (raw.payload ++ gap raw)
      ∙ ap₂ (λ a b. a + b) (C.header.length-write (header_of raw) v)
          (length-append raw.payload (gap raw))
      ∙ omega (arith, C.space-ge n small, C.length-padding (C.space n - (C.header.size + n)))

  pub frame-pos :
      (raw : RawControlMessageOut)
      → IsSmall raw
      → C.header.IsValue (header_of raw)
      → 0 < length (plain_frame raw)
  frame-pos raw small v =
      omega
        (arith, length-frame raw small v, C.space-ge (length raw.payload) small, C.header.size-pos)

  pub next_message-frame :
      (raw : RawControlMessageOut) (rest : List ℕ)
      → IsSmall raw
      → C.header.IsValue (header_of raw)
      → next_message C M (plain_frame raw ++ rest) ≡ rest
  unfolding next_message
  next_message-frame raw rest small v =
      let size : C.header.size + length raw.payload - C.header.size ≡ length raw.payload =
        omega arith in
      ap (λ h. drop (C.space (as_c_uint (h.cmsg_len - C.header.size))) (plain_frame raw ++ rest))
        (read-frame raw rest v)
      ∙ ap (λ n. drop n (plain_frame raw ++ rest))
          (ap (λ n. C.space (as_c_uint n)) size
            ∙ ap C.space (as_c_uint-small (length raw.payload) small)
            ∙ sym (length-frame raw small v))
      ∙ drop-append (plain_frame raw) rest

  pub try_parse_single-frame :
      (raw : RawControlMessageOut) (m : M.Message) (rest : List ℕ)
      → C.header.IsValue (header_of raw)
      → ((behind : List ℕ) → M.parse (arrived raw behind) ≡ ok m)
      → try_parse_single C M (plain_frame raw ++ rest) ≡ ok m
  unfolding try_parse_single parsed
  try_parse_single-frame raw m rest v h =
      let size : C.header.size + length raw.payload - C.header.size ≡ length raw.payload =
        omega arith in
      let whole : ltb (C.header.size + length raw.payload) C.header.size ≡ false = ground arith in
      rw (read-frame raw rest v, size, whole, drop-frame raw rest v, h (gap raw ++ rest)) refl
