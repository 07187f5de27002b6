-- ===== src/Io/Buffers/Output/Scatter.antt =====
-- src/io/buffers.rs: a read into several buffers.
--
-- `scatter` is `readv`, on the memory that the vectors point at; `appended` what a client is to see.
use cl_async.Base.{
  ℕ, zero, suc, ◌+◌, ◌-◌, ◌≤◌, ◌<◌, ◌≡◌, ◌≢◌, refl, sym, ap, ap₂, ◌∙◌, min, ltb, leb, ◌==◌, inl,
  inr, Bool-cases, true, false, List, [], ◌∷◌, ◌++◌, map, length, length-append, length-drop, take,
  drop, sum_of, All, ok, err, arith,
}
use mathlib.Core.List.{append_assoc}
use cl_async.Io.Buffers.{
  BytesMut, BytesCrate, capacity, spare, contents, chunk_mut, advance_mut, valid_iovecs,
}
use cl_async.Io.Buffers.Output.{
  Iovec, IoVecOutputBuffer, IoVecOutputBufferIntoBytesError, spare_iovecs, output_iovecs, account,
  into_bytes_vectored,
}
use cl_async.Io.Buffers.Output.Taken.{
  write_at, contents-write_at, IsWithin, length-take, chunk_mut-lem, advance-write_at,
}

abbrev update_at : ℕ → (BytesMut → BytesMut) → List BytesMut → List BytesMut
update_at i f [] = []
update_at zero f (b ∷ bs) = f b ∷ bs
update_at (suc i) f (b ∷ bs) = b ∷ update_at i f bs

-- The kernel fills one vector after the other.
abbrev pub scatter : List Iovec → List ℕ → List BytesMut → List BytesMut
scatter [] bytes bs = bs
scatter (v ∷ vs) bytes bs =
    scatter vs (drop v.iov_len bytes)
      (update_at v.buffer (λ b. write_at v.offset (take v.iov_len bytes) b) bs)

-- Each buffer's contents, with the part of the bytes that fits behind them.
abbrev pub appended : List ℕ → List BytesMut → List (List ℕ)
appended bytes [] = []
appended bytes (b ∷ bs) = (contents b ++ take (spare b) bytes) ∷ appended (drop (spare b) bytes) bs

abbrev pub HasRoom : BytesMut → Type 0
HasRoom b = b.len < capacity b

abbrev pub IsFull : BytesMut → Type 0
IsFull b = b.len ≡ capacity b

abbrev landed : List ℕ → List BytesMut → List BytesMut
landed bytes [] = []
landed bytes (b ∷ bs) = write_at b.len (take (spare b) bytes) b ∷ landed (drop (spare b) bytes) bs

update_at-append :
    (f : BytesMut → BytesMut) (before : List BytesMut) (b : BytesMut) (bs : List BytesMut)
    → update_at (length before) f (before ++ b ∷ bs) ≡ before ++ f b ∷ bs
update_at-append f [] b bs = refl
update_at-append f (c ∷ before) b bs = ap (λ l. c ∷ l) (update_at-append f before b bs)

spare_iovecs-room :
    (i : ℕ) (b : BytesMut) (bs : List BytesMut)
    → HasRoom b
    → spare_iovecs i (b ∷ bs)
      ≡ record { buffer = i; offset = b.len; iov_len = spare b } ∷ spare_iovecs (suc i) bs
unfolding spare_iovecs
spare_iovecs-room i b bs room =
    let vectored : leb (capacity b) b.len ≡ false = ground arith in rw (vectored) refl

valid_iovecs-ok : {A : Type 0} (max : ℕ) (vs ws : List A) → valid_iovecs max vs ≡ ok ws → vs ≡ ws
unfolding valid_iovecs
valid_iovecs-ok max [] ws e = ground arith
valid_iovecs-ok max (v ∷ vs) ws e = ground arith

scatter-spare_iovecs :
    (before bs : List BytesMut) (bytes : List ℕ)
    → All HasRoom bs
    → scatter (spare_iovecs (length before) bs) bytes (before ++ bs) ≡ before ++ landed bytes bs
unfolding spare_iovecs
scatter-spare_iovecs before [] bytes h = refl
scatter-spare_iovecs before (b ∷ bs) bytes (room, h) =
    let write = write_at b.len (take (spare b) bytes) in
    let left = drop (spare b) bytes in
    let next : suc (length before) ≡ length (before ++ write b ∷ []) =
      omega (arith, length-append before (write b ∷ [])) in
    ap (λ vs. scatter vs bytes (before ++ b ∷ bs)) (spare_iovecs-room (length before) b bs room)
    ∙ ap (scatter (spare_iovecs (suc (length before)) bs) left) (update_at-append write before b bs)
    ∙ ap₂ (λ n l. scatter (spare_iovecs n bs) left l) next
        (sym (append_assoc before (write b ∷ []) bs))
    ∙ scatter-spare_iovecs (before ++ write b ∷ []) bs left h
    ∙ append_assoc before (write b ∷ []) (landed left bs)

module _ (G : BytesCrate) where
  -- One round of the loop, over a buffer that the kernel wrote all of `part` into.
  account-part :
      (b : BytesMut) (part : List ℕ) (bs : List BytesMut) (total accounted : ℕ)
      → HasRoom b
      → length part ≡ min (total - accounted) (spare b)
      → account G total accounted (write_at b.len part b ∷ bs) ≡ (
        advance_mut (length part) (write_at b.len part b)
            ∷ (account G total (accounted + length part) bs).0,
        (account G total (accounted + length part) bs).1,
      )
  unfolding account
  account-part b part bs total accounted room e =
      let (stays, left, same) = advance-write_at G b part (omega arith) room (omega arith) in
      rw (account, stays, left, sym e) refl

  account-landed :
      (bs : List BytesMut) (bytes : List ℕ) (total accounted : ℕ)
      → All HasRoom bs
      → total ≡ accounted + length bytes
      → (map contents (account G total accounted (landed bytes bs)).0 ≡ appended bytes bs)
        × ((account G total accounted (landed bytes bs)).1
            ≡ accounted + min (length bytes) (sum_of spare bs))
  unfolding account
  account-landed [] bytes total accounted h e = (refl, omega arith)
  account-landed (b ∷ bs) bytes total accounted (room, h) e =
      let part = take (spare b) bytes in
      let size : length part ≡ min (spare b) (length bytes) = length-take (spare b) bytes in
      let left = length-drop (spare b) bytes in
      let round =
        account-part b part (landed (drop (spare b) bytes) bs) total accounted room
          (omega (arith, size)) in
      let same = contents-write_at b part (omega arith) in
      let (later, sum) =
        account-landed bs (drop (spare b) bytes) total (accounted + length part) h
          (omega (arith, size, left)) in
      (
        ap (λ r. map contents r.0) round ∙ ap₂ (λ x xs. x ∷ xs) same later,
        ap (λ r. r.1) round ∙ sum ∙ omega (arith, size, left),
      )

  -- A read into buffers that all have room, through the vectors that were generated for them: the bytes
  -- are taken over exactly where the kernel put them.
  pub into_bytes_vectored-scatter :
      (out : IoVecOutputBuffer) (max : ℕ) (iovecs : List Iovec) (bytes : List ℕ)
      → All HasRoom out.buffers
      → output_iovecs max out ≡ ok iovecs
      → length bytes ≤ sum_of spare out.buffers
      → (bs : List BytesMut) × (into_bytes_vectored G
            (record { buffers = scatter iovecs bytes out.buffers })
            (length bytes)
          ≡ ok bs)
        × (map contents bs ≡ appended bytes out.buffers)
  unfolding into_bytes_vectored output_iovecs
  into_bytes_vectored-scatter out max iovecs bytes h e fits =
      let (same, sum) = account-landed out.buffers bytes (length bytes) 0 h (omega arith) in
      let place : scatter iovecs bytes out.buffers ≡ landed bytes out.buffers =
        ap (λ vs. scatter vs bytes out.buffers)
          (sym (valid_iovecs-ok max (spare_iovecs 0 out.buffers) iovecs e))
        ∙ scatter-spare_iovecs [] out.buffers bytes h in
      let all : ltb (account G (length bytes) 0 (landed bytes out.buffers)).1 (length bytes)
          ≡ false =
        ground (arith, sum) in
      (_, rw (place, all) refl, same)

  accounts_everything :
      (bs : List BytesMut) (total accounted : ℕ)
      → All IsWithin bs
      → accounted + sum_of (λ b. spare (chunk_mut G b)) bs ≤ total
      → All IsFull (account G total accounted bs).0
        × ((account G total accounted bs).1 ≡ accounted + sum_of (λ b. spare (chunk_mut G b)) bs)
  unfolding account
  accounts_everything [] total accounted h e = (tt, omega arith)
  accounts_everything (b ∷ bs) total accounted (within, h) e =
      let (inside, same, size, room) = chunk_mut-lem G b within in
      let here : min (total - accounted) (spare (chunk_mut G b)) ≡ spare (chunk_mut G b) =
        omega arith in
      let (full, sum) =
        accounts_everything bs total (accounted + spare (chunk_mut G b)) h (omega arith) in
      rw (account, here) ((omega arith, full), sum ∙ omega arith)

  -- A count that is larger than all the room, that of the full buffers that grew included, is an overflow,
  -- which gives back every buffer with its memory counted in.
  pub into_bytes_vectored-overflow :
      (out : IoVecOutputBuffer) (n : ℕ)
      → All IsWithin out.buffers
      → sum_of (λ b. spare (chunk_mut G b)) out.buffers < n
      → (bs : List BytesMut) × (into_bytes_vectored G out n
          ≡ err (
              IoVecOutputBufferIntoBytesError.buffer_overflow n
                (sum_of (λ b. spare (chunk_mut G b)) out.buffers)
                bs))
        × All IsFull bs
  unfolding into_bytes_vectored
  into_bytes_vectored-overflow out n h more =
      let (full, sum) = accounts_everything out.buffers n 0 h (omega arith) in
      let short : ltb (account G n 0 out.buffers).1 n ≡ true = ground (arith, sum) in
      (
        _,
        rw (short) (
            ap
              (λ a.
                err (
                  IoVecOutputBufferIntoBytesError.buffer_overflow n a
                    (account G n 0 out.buffers).0))
              (sum ∙ omega arith)),
        full,
      )

  -- No vector from a place on points at an earlier place.
  spare_iovecs-later :
      (i j : ℕ) (bs : List BytesMut) → i < j → All (λ v. v.buffer ≢ i) (spare_iovecs j bs)
  unfolding spare_iovecs
  spare_iovecs-later i j [] h = tt
  spare_iovecs-later i j (b ∷ bs) h = elim (Bool-cases (leb (capacity b) b.len)) [
    | inl full ↦ rw (spare_iovecs, full) (spare_iovecs-later i (suc j) bs (omega arith))
    | inr room ↦
        rw (spare_iovecs, room) (omega arith, spare_iovecs-later i (suc j) bs (omega arith))
  ]

  -- A first buffer that is full gets no vector, and of the bytes that are accounted for it gets as many as
  -- its new memory holds.
  pub full_buffer_counted :
      (b : BytesMut) (bs : List BytesMut) (n : ℕ)
      → IsFull b
      → All (λ v. v.buffer ≢ 0) (spare_iovecs 0 (b ∷ bs))
        × ((later : List BytesMut) × ((account G n 0 (b ∷ bs)).0
              ≡ record {
                memory = b.memory ++ G.reserved b.memory;
                len = b.len + min n (length (G.reserved b.memory));
              }
                ∷ later))
  unfolding account spare_iovecs chunk_mut
  full_buffer_counted b bs n full =
      let vectored : leb (capacity b) b.len ≡ true = ground arith in
      let grown : (capacity b == b.len) ≡ true = ground arith in
      let whole : n - 0 ≡ n = omega arith in
      let size : length (b.memory ++ G.reserved b.memory) - b.len ≡ length (G.reserved b.memory) =
        omega (arith, length-append b.memory (G.reserved b.memory)) in
      (
        rw (vectored, spare_iovecs) (spare_iovecs-later 0 1 bs (omega arith)),
        (
          (account G n (0 + min (n - 0) (length (G.reserved b.memory))) bs).0,
          rw (account, grown, size, whole) refl,
        ),
      )
