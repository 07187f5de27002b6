-- ===== src/Io/Buffers/Output/Taken.antt =====
-- src/io/buffers.rs: what is in a buffer after the kernel wrote into its memory.
--
-- `write_at` is the write of the kernel into memory; `AppendsWhere` what a client sees of it.
use cl_async.Base.{
  ℕ, zero, suc, ◌+◌, ◌-◌, ◌≤◌, ◌<◌, ◌≡◌, refl, sym, ap, ap₂, ◌∙◌, ◌==◌, ==_iff, Bool-cases, false,
  inl, inr, min, List, [], ◌∷◌, ◌++◌, length, length-append, length-drop, take, drop, ok, ltb,
  arith,
}
use cl_async.Io.Buffers.{BytesMut, BytesCrate, capacity, spare, contents, chunk_mut, advance_mut}
use cl_async.Io.Buffers.Output.{IoOutputBuffer, writable_len, into_bytes}

-- Bytes that are written from an offset on.
abbrev pub write_at : ℕ → List ℕ → BytesMut → BytesMut
write_at offset bytes b = record b {
  memory = take offset b.memory ++ (bytes ++ drop (offset + length bytes) b.memory);
}

module _ {A : Type 0} where
  pub length-take : (n : ℕ) (xs : List A) → length (take n xs) ≡ min n (length xs)
  length-take zero xs = ground arith
  length-take (suc n) [] = ground arith
  length-take (suc n) (x ∷ xs) = omega (arith, length-take n xs)

  take-append : (xs ys : List A) (n : ℕ) → take (length xs + n) (xs ++ ys) ≡ xs ++ take n ys
  take-append [] ys n = ap (λ k. take k ys) (omega arith)
  take-append (x ∷ xs) ys n =
      let e : suc (length xs) + n ≡ suc (length xs + n) = omega arith in
      ap (λ k. take k (x ∷ (xs ++ ys))) e ∙ ap (λ l. x ∷ l) (take-append xs ys n)

  pub take-whole : (xs ys : List A) → take (length xs) (xs ++ ys) ≡ xs
  take-whole [] ys = refl
  take-whole (x ∷ xs) ys = ap (λ l. x ∷ l) (take-whole xs ys)

  take-all : (xs : List A) → take (length xs) xs ≡ xs
  take-all [] = refl
  take-all (x ∷ xs) = ap (λ l. x ∷ l) (take-all xs)

  length-take-le : (n : ℕ) (xs : List A) → n ≤ length xs → length (take n xs) ≡ n
  length-take-le n xs h = omega (arith, length-take n xs)

-- The length of a buffer lies within its memory.
abbrev pub IsWithin : BytesMut → Type 0
IsWithin b = b.len ≤ capacity b

-- Bytes written behind the contents become contents, as many as the length is advanced by.
pub contents-write_at :
    (b : BytesMut) (bytes : List ℕ)
    → IsWithin b
    → contents (advance_mut (length bytes) (write_at b.len bytes b)) ≡ contents b ++ bytes
contents-write_at b bytes within =
    let before = contents b in
    let behind = drop (b.len + length bytes) b.memory in
    let size : b.len ≡ length before = sym (length-take-le b.len b.memory within) in
    ap (λ n. take (n + length bytes) (before ++ (bytes ++ behind))) size
    ∙ take-append before (bytes ++ behind) (length bytes)
    ∙ ap (λ l. before ++ l) (take-whole bytes behind)

pub capacity-write_at :
    (b : BytesMut) (bytes : List ℕ)
    → b.len + length bytes ≤ capacity b
    → capacity (write_at b.len bytes b) ≡ capacity b
capacity-write_at b bytes fits =
    let behind = drop (b.len + length bytes) b.memory in
    length-append (contents b) (bytes ++ behind)
    ∙ ap₂ (λ x y. x + y) (length-take-le b.len b.memory (omega arith)) (length-append bytes behind)
    ∙ omega (arith, length-drop (b.len + length bytes) b.memory)

module _ (G : BytesCrate) where
  -- A buffer with room behind its length stays as it is; a full one grows behind what it holds.
  pub chunk_mut-room : (b : BytesMut) → b.len < capacity b → chunk_mut G b ≡ b
  unfolding chunk_mut
  chunk_mut-room b room =
      let other : (capacity b == b.len) ≡ false = ground arith in rw (other) refl

  pub chunk_mut-lem :
      (b : BytesMut)
      → IsWithin b
      → IsWithin (chunk_mut G b)
        × (contents (chunk_mut G b) ≡ contents b)
        × ((chunk_mut G b).len ≡ b.len)
        × (0 < spare (chunk_mut G b))
  unfolding chunk_mut
  chunk_mut-lem b within = elim (Bool-cases (capacity b == b.len)) [
    | inr other ↦ rw (other) (within, refl, refl, ground arith)
    | inl full ↦
        let size : b.len ≡ capacity b = sym ((==_iff (capacity b) b.len).0 full) in
        let more = G.reserved b.memory in
        let long = length-append b.memory more in
        rw (full) (
          omega (arith, long),
          ap (λ n. take n (b.memory ++ more)) size
              ∙ take-whole b.memory more
              ∙ sym (ap (λ n. take n b.memory) size ∙ take-all b.memory),
          refl,
          omega (arith, long, G.reserved-pos b.memory),
        )
  ]

  -- What one buffer gives after a read that wrote all of `bytes` behind its length.
  pub advance-write_at :
      (b : BytesMut) (bytes : List ℕ)
      → IsWithin b
      → b.len < capacity b
      → length bytes ≤ spare b
      → (chunk_mut G (write_at b.len bytes b) ≡ write_at b.len bytes b)
        × (spare (write_at b.len bytes b) ≡ spare b)
        × (contents (advance_mut (length bytes) (write_at b.len bytes b)) ≡ contents b ++ bytes)
  advance-write_at b bytes within room fits =
      let size = capacity-write_at b bytes (omega arith) in
      (
        chunk_mut-room (write_at b.len bytes b) (omega (arith, size)),
        ap (λ n. n - b.len) size,
        contents-write_at b bytes within,
      )

  -- A read of at most `writable_len` bytes, written where `as_mut_ptr` points, appends them to the contents.
  into_bytes_lem :
      (out : IoOutputBuffer) (bytes : List ℕ)
      → IsWithin out.bytes
      → length bytes ≤ writable_len G out
      → (b : BytesMut) × (into_bytes G
            (record { bytes = write_at (chunk_mut G out.bytes).len bytes (chunk_mut G out.bytes) })
            (length bytes)
          ≡ ok b)
        × (contents b ≡ contents out.bytes ++ bytes)
  unfolding into_bytes writable_len
  into_bytes_lem out bytes within fits =
      let g = chunk_mut G out.bytes in
      let (g_within, same, size, room) = chunk_mut-lem out.bytes within in
      let (stays, left, appended) = advance-write_at g bytes g_within (omega arith) fits in
      let taken : min (length bytes) (spare g) ≡ length bytes = omega arith in
      let small : ltb (spare g) (length bytes) ≡ false = ground arith in
      (
        advance_mut (length bytes) (write_at g.len bytes g),
        rw (stays, left, taken, small) refl,
        appended ∙ ap (λ l. l ++ bytes) same,
      )
