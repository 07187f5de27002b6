-- ===== src/Io/ControlMessage/Framing/Slices.antt =====
-- src/io/message.rs: a buffer of control messages is parsed into the messages that it was prepared from,
-- and a buffer in which no length wraps is parsed to its end.
use mathlib.Core.List.{append-nil, append_assoc}
use cl_async.Base.{
  ℕ, zero, suc, ◌+◌, ◌-◌, ◌^◌, ◌≤◌, ◌<◌, ◌≡◌, refl, sym, ap, ◌∙◌, List, [], ◌∷◌, ◌++◌, map, length,
  length-append, drop, All, some, ok, arith,
}
use cl_async.Io.ControlMessage.{RawControlMessageOut, Cmsg, ControlMessage}
use cl_async.Io.ControlMessage.Copies.{arrived}
use cl_async.Io.ControlMessage.Framing.{
  try_parse_single, next_message, parse_loop, try_parse_from_slice, frame, frames, prepare_each,
  try_prepare_multi,
}
use cl_async.Io.ControlMessage.Framing.Frames.{
  IsSmall, header_of, plain_frame, frame-small, frame-pos, next_message-frame,
  try_parse_single-frame,
}

pub drop_nil : (n : ℕ) → drop {A = ℕ} n [] ≡ []
drop_nil zero = refl
drop_nil (suc n) = refl

module _ (C : Cmsg) (M : ControlMessage) where
  -- Wherever a header is read in the bytes, its length does not wrap.
  abbrev pub HasSmallHeaders : List ℕ → Type 0
  HasSmallHeaders bytes =
      (k : ℕ) → (C.header.read (drop k bytes)).cmsg_len - C.header.size + C.overhead < 2 ^ 32

  parse_loop-round :
      (rounds : ℕ) (bytes : List ℕ) (messages : List M.Message) (m : M.Message)
      → 0 < length bytes
      → try_parse_single C M bytes ≡ ok m
      → parse_loop C M (suc rounds) bytes messages
        ≡ parse_loop C M rounds (next_message C M bytes) (messages ++ m ∷ [])
  unfolding parse_loop
  parse_loop-round rounds [] messages m pos e = absurd (omega arith)
  parse_loop-round rounds (b ∷ bytes) messages m pos e = rw (e, parse_loop) refl

  -- The parsed form of each message, one after the other.
  abbrev AllThrough : List M.Message → List RawControlMessageOut → Type 0
  AllThrough [] [] = Unit
  AllThrough (m ∷ ms) (raw ∷ raws) =
      IsSmall C M raw
      × C.header.IsValue (header_of C M raw)
      × ((behind : List ℕ) → M.parse (arrived raw behind) ≡ ok (M.received m))
      × AllThrough ms raws
  AllThrough ms raws = ⊥

  -- A message that can be received, whose length does not wrap, and whose header can be written.
  abbrev pub IsSendable : M.Message → Type 0
  IsSendable m =
      M.IsReceivable m
      × ((raw : RawControlMessageOut)
          → M.prepare m ≡ ok raw
          → IsSmall C M raw × C.header.IsValue (header_of C M raw))

  prepare_each-through :
      (msgs : List M.Message)
      → All IsSendable msgs
      → (raws : List RawControlMessageOut) × (prepare_each C M msgs ≡ ok raws)
        × AllThrough msgs raws
  unfolding prepare_each
  prepare_each-through [] h = ([], refl, tt)
  prepare_each-through (m ∷ msgs) (h, hs) =
      let (raw, e, back) = M.comes_through m h.0 in
      let (raws, es, backs) = prepare_each-through msgs hs in
      (raw ∷ raws, rw (e, es, prepare_each) refl, (((h.1 raw e).0), ((h.1 raw e).1), back, backs))

  parse_loop-frames :
      (msgs : List M.Message) (raws : List RawControlMessageOut) (rounds : ℕ)
      (messages : List M.Message)
      → AllThrough msgs raws
      → length (frames C M raws) ≤ rounds
      → parse_loop C M rounds (frames C M raws) messages
        ≡ some (ok (messages ++ map M.received msgs))
  unfolding frames parse_loop
  parse_loop-frames [] [] rounds messages h enough =
      ap (λ l. some (ok l)) (sym (append-nil messages))
  parse_loop-frames (m ∷ msgs) (raw ∷ raws) zero messages (small, v, h, hs) enough = absurd (
      omega (
        arith,
        length-append (frame C M raw) (frames C M raws),
        ap length (frame-small C M raw small),
        frame-pos C M raw small v,
      ))
  parse_loop-frames (m ∷ msgs) (raw ∷ raws) (suc rounds) messages (small, v, h, hs) enough =
      let long = length-append (plain_frame C M raw) (frames C M raws) in
      ap (λ l. parse_loop C M (suc rounds) (l ++ frames C M raws) messages)
        (frame-small C M raw small)
      ∙ parse_loop-round rounds (plain_frame C M raw ++ frames C M raws) messages (M.received m)
          (omega (arith, long, frame-pos C M raw small v))
          (try_parse_single-frame C M raw (M.received m) (frames C M raws) v h)
      ∙ ap (λ l. parse_loop C M rounds l (messages ++ M.received m ∷ []))
          (next_message-frame C M raw (frames C M raws) small v)
      ∙ parse_loop-frames msgs raws rounds (messages ++ M.received m ∷ []) hs (
          omega (
            arith,
            length-append (frame C M raw) (frames C M raws),
            ap length (frame-small C M raw small),
            frame-pos C M raw small v,
          ))
      ∙ ap (λ l. some (ok l)) (append_assoc messages (M.received m ∷ []) (map M.received msgs))
  parse_loop-frames [] (raw ∷ raws) rounds messages h enough = absurd h
  parse_loop-frames (m ∷ msgs) [] rounds messages h enough = absurd h

  -- What is prepared from receivable messages is parsed into what the other side receives.
  pub try_parse_from_slice-try_prepare_multi :
      (msgs : List M.Message)
      → All IsSendable msgs
      → (bytes : List ℕ) × (try_prepare_multi C M msgs ≡ ok bytes)
        × (try_parse_from_slice C M bytes ≡ some (ok (map M.received msgs)))
  unfolding try_prepare_multi try_parse_from_slice
  try_parse_from_slice-try_prepare_multi msgs h =
      let (raws, e, back) = prepare_each-through msgs h in
      (
        frames C M raws,
        rw (e, try_prepare_multi) refl,
        parse_loop-frames msgs raws (length (frames C M raws)) [] back (omega arith),
      )
