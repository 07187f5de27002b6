-- ===== src/Io/Recovery/Growth.antt =====
-- src/io/buffers.rs and src/io/operation/data: what making an operation does to its buffers.
use mathlib.Core.List.{append-nil}
use cl_async.Base.{
  ℕ, suc, ◌+◌, ◌≡◌, ◌≢◌, refl, subst, ◌==◌, ==_iff, ◌||◌, ltb, if◌then◌else◌, true, false,
  Bool-cases, inl, inr, Option, none, some, List, [], ◌∷◌, ◌++◌, length, length-append, Result, ok,
  err, ◌⊎◌, sym, ap, ◌∙◌, arith,
}
use cl_async.Base.Int.{ℤ}
use cl_async.Io.Buffers.{BytesMut, BytesCrate, capacity, chunk_mut, valid_iovecs}
use cl_async.Io.Buffers.Output.{
  Iovec, IoOutputBuffer, IoVecOutputBuffer, new_output, spare_iovecs, output_iovecs,
}
use cl_async.Io.Buffers.Messages.{
  RecvMsgSubmissionErrorKind, IoRecvMsgOutputBuffers, unwrap, into_control,
}
use cl_async.Io.Recovery.{made_writable, new_recv_msg}

pub new_output-cases :
    (b : BytesMut)
    → (new_output b ≡ err (record { buffer = b })) ⊎ (new_output b ≡ ok (record { bytes = b }))
unfolding new_output
new_output-cases b = elim (Bool-cases (capacity b == 0)) [
  | inl empty ↦ inl (rw (empty, new_output) refl)
  | inr room ↦ inr (rw (room, new_output) refl)
]

pub Result-cases {ℓ} :
    {A E : Type ℓ} (r : Result A E) → ((a : A) × (r ≡ ok a)) ⊎ ((e : E) × (r ≡ err e))
Result-cases (ok a) = inl (a, refl)
Result-cases (err e) = inr (e, refl)

module _ (G : BytesCrate) where
  chunk_mut-full :
      (b : BytesMut) → capacity b ≡ b.len → (chunk_mut G b).memory ≡ b.memory ++ G.reserved b.memory
  unfolding chunk_mut
  chunk_mut-full b full = let test : (capacity b == b.len) ≡ true = ground arith in rw test refl

  chunk_mut-len : (b : BytesMut) → (chunk_mut G b).len ≡ b.len
  unfolding chunk_mut
  chunk_mut-len b = ground arith

  chunk_mut-room : (b : BytesMut) → capacity b ≢ b.len → chunk_mut G b ≡ b
  unfolding chunk_mut
  chunk_mut-room b room = let test : (capacity b == b.len) ≡ false = ground arith in rw test refl

  -- A buffer as it was, but that a full one may have grown.
  abbrev pub IsKept : BytesMut → BytesMut → Type 0
  IsKept b b' =
      (b'.len ≡ b.len)
      × ((rest : List ℕ) × (b'.memory ≡ b.memory ++ rest) × (capacity b ≢ b.len → rest ≡ []))

  pub IsKept-refl : (b : BytesMut) → IsKept b b
  IsKept-refl b = (refl, ([], sym (append-nil b.memory), λ h. refl))

  pub chunk_mut-IsKept : (b : BytesMut) → IsKept b (chunk_mut G (chunk_mut G b))
  chunk_mut-IsKept b = elim (Bool-cases (capacity b == b.len)) [
    | inr other ↦
        let room : capacity b ≢ b.len = λ same.
          let yes_ : (capacity b == b.len) ≡ true = (==_iff (capacity b) b.len).1 same in
          let never : ⊥ = cc (sym other ∙ yes_) in never in
        let once = chunk_mut-room b room in
        subst (λ x. IsKept b x) (sym (ap (chunk_mut G) once ∙ once)) (IsKept-refl b)
    | inl test ↦
        let full : capacity b ≡ b.len = (==_iff (capacity b) b.len).0 test in
        let grown = chunk_mut-full b full in
        let size : capacity (chunk_mut G b) ≡ capacity b + length (G.reserved b.memory) =
          ap length grown ∙ length-append b.memory (G.reserved b.memory) in
        let roomy : capacity (chunk_mut G b) ≢ (chunk_mut G b).len =
          λ same. absurd (omega (arith, same, chunk_mut-len b, G.reserved-pos b.memory)) in
        let twice = chunk_mut-room (chunk_mut G b) roomy in
        (
          ap (λ x. x.len) twice ∙ chunk_mut-len b,
          (G.reserved b.memory, ap (λ x. x.memory) twice ∙ grown, λ h. absurd (h full)),
        )
  ]

  -- The same for a control buffer, if there is one.
  abbrev pub IsKeptControl : Option BytesMut → Option BytesMut → Type 0
  IsKeptControl none none = Unit {0}
  IsKeptControl (some c) (some c') = IsKept c c'
  IsKeptControl c c' = ⊥

  pub IsKeptControl-refl : (c : Option BytesMut) → IsKeptControl c c
  IsKeptControl-refl none = tt
  IsKeptControl-refl (some c) = IsKept-refl c

  pub made_writable-IsKeptControl :
      (c : Option IoOutputBuffer)
      → IsKeptControl (into_control c) (into_control (made_writable G c))
  unfolding made_writable into_control
  made_writable-IsKeptControl none = tt
  made_writable-IsKeptControl (some out) = chunk_mut-IsKept out.bytes

  pub new_recv_msg-cases :
      (max : ℕ) (d : Option IoVecOutputBuffer) (c : Option IoOutputBuffer) (flags : ℤ)
      → let out : IoRecvMsgOutputBuffers = record { data_ = d; control = c } in
        let writable : IoRecvMsgOutputBuffers = record { data_ = d; control = made_writable G c } in
        (new_recv_msg G max out flags ≡ ok (record { flags = flags; pending_msg = some writable }))
        ⊎ ((k : RecvMsgSubmissionErrorKind) × (new_recv_msg G max out flags
              ≡ err (record { buffers = unwrap out; kind = k })))
  unfolding new_recv_msg
  new_recv_msg-cases max none c flags = inl refl
  new_recv_msg-cases max (some d) c flags = elim (Result-cases (output_iovecs max d)) [
    | inl (v, e) ↦ inl (rw (e, new_recv_msg) refl)
    | inr (x, e) ↦ inr (RecvMsgSubmissionErrorKind.invalid_io_vec x, rw (e, new_recv_msg) refl)
  ]

-- How many buffers have room.
abbrev pub roomy : List BytesMut → ℕ
roomy [] = 0
roomy (b ∷ bs) = if ltb b.len (capacity b) then roomy bs + 1 else roomy bs

pub length-spare_iovecs : (i : ℕ) (bs : List BytesMut) → length (spare_iovecs i bs) ≡ roomy bs
unfolding spare_iovecs
length-spare_iovecs i [] = refl
length-spare_iovecs i (b ∷ bs) = ground (arith, length-spare_iovecs (suc i) bs)

pub kept_if_valid :
    {A : Type 0} (max : ℕ) (x : A) (vs : List Iovec)
    → (elim (valid_iovecs max vs) [ ok v ↦ some x | err e ↦ none ])
      ≡ (if length vs == 0 || ltb max (length vs) then none else some x)
unfolding valid_iovecs
kept_if_valid max x [] = refl
kept_if_valid max x (v ∷ vs) = ground arith
