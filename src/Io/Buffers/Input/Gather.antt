-- ===== src/Io/Buffers/Input/Gather.antt =====
-- src/io/buffers.rs: what the kernel reads through the vectors of a buffer is the buffer.
use mathlib.Core.List.{append-nil, append_assoc}
use cl_async.Base.{
  ℕ, zero, suc, ◌≤◌, ◌<◌, ◌≡◌, refl, sym, ap, ap₂, ◌∙◌, ◌==◌, ltb, Bool-cases, false, inl, inr,
  List, [], ◌∷◌, ◌++◌, length, length-drop, take, drop, some, Result, ok, err, arith,
}
use cl_async.Io.Buffers.{BytesCrate, InvalidIoVecError, valid_iovecs}
use cl_async.Io.Buffers.Input.{
  IoVecInputSource, iovecs_loop, generate_iovecs_single, iovecs_of_each, valid_all, generate_iovecs,
}

-- What `write` or `writev` takes, vector after vector.
abbrev pub gathered : List (List ℕ) → List ℕ
gathered [] = []
gathered (v ∷ vs) = v ++ gathered vs

abbrev pub bytes_of : IoVecInputSource → List ℕ
bytes_of (IoVecInputSource.single bytes) = bytes
bytes_of (IoVecInputSource.multiple buffers) = gathered buffers

gathered-append : (vs ws : List (List ℕ)) → gathered (vs ++ ws) ≡ gathered vs ++ gathered ws
gathered-append [] ws = refl
gathered-append (v ∷ vs) ws =
    ap (λ l. v ++ l) (gathered-append vs ws) ∙ sym (append_assoc v (gathered vs) (gathered ws))

take-drop : (n : ℕ) (xs : List ℕ) → take n xs ++ drop n xs ≡ xs
take-drop zero xs = refl
take-drop (suc n) [] = refl
take-drop (suc n) (x ∷ xs) = ap (λ l. x ∷ l) (take-drop n xs)

module _ (G : BytesCrate) where
  -- The pieces that `chunk` cuts bytes into, one after the other, to the end; there is one such list.
  abbrev pub IsCut : List ℕ → List (List ℕ) → Type 0
  IsCut bytes [] = bytes ≡ []
  IsCut bytes (v ∷ vs) =
      (0 < length bytes) × (v ≡ take (G.chunk bytes) bytes) × IsCut (drop (G.chunk bytes) bytes) vs

  -- The pieces of several buffers.
  abbrev pub AreCut : List (List ℕ) → List (List ℕ) → Type 0
  AreCut [] vs = vs ≡ []
  AreCut (bytes ∷ buffers) vs =
      (us : List (List ℕ)) × (ws : List (List ℕ)) × (vs ≡ us ++ ws)
      × IsCut bytes us
      × AreCut buffers ws

  abbrev pub IsCutOf : IoVecInputSource → List (List ℕ) → Type 0
  IsCutOf (IoVecInputSource.single bytes) vs = IsCut bytes vs
  IsCutOf (IoVecInputSource.multiple buffers) vs = AreCut buffers vs

  iovecs_loop_cuts :
      (rounds : ℕ) (bytes : List ℕ) (iovecs : List (List ℕ))
      → length bytes ≤ rounds
      → (vs : List (List ℕ)) × (iovecs_loop G rounds bytes iovecs ≡ some (iovecs ++ vs))
        × IsCut bytes vs
  unfolding iovecs_loop
  iovecs_loop_cuts rounds [] iovecs h = ([], ap some (sym (append-nil iovecs)), refl)
  iovecs_loop_cuts zero (b ∷ bytes) iovecs h = absurd (omega arith)
  iovecs_loop_cuts (suc rounds) (b ∷ bytes) iovecs h =
      let n = G.chunk (b ∷ bytes) in
      let some_len : (n == 0) ≡ false = ground (arith, G.chunk-pos (b ∷ bytes) (omega arith)) in
      let (vs, e, cut) =
        iovecs_loop_cuts rounds (drop n (b ∷ bytes)) (iovecs ++ take n (b ∷ bytes) ∷ [])
          (omega (arith, length-drop n (b ∷ bytes), G.chunk-pos (b ∷ bytes) (omega arith))) in
      (
        take n (b ∷ bytes) ∷ vs,
        rw (some_len, iovecs_loop) (e ∙ ap some (append_assoc iovecs (take n (b ∷ bytes) ∷ []) vs)),
        (omega arith, refl, cut),
      )

  generate_iovecs_single_cuts :
      (bytes : List ℕ)
      → (vs : List (List ℕ)) × (generate_iovecs_single G bytes ≡ some vs) × IsCut bytes vs
  unfolding generate_iovecs_single
  generate_iovecs_single_cuts bytes = iovecs_loop_cuts (length bytes) bytes [] (omega arith)

  iovecs_of_each_cuts :
      (buffers iovecs : List (List ℕ))
      → (vs : List (List ℕ)) × (iovecs_of_each G buffers iovecs ≡ some (iovecs ++ vs))
        × AreCut buffers vs
  unfolding iovecs_of_each
  iovecs_of_each_cuts [] iovecs = ([], ap some (sym (append-nil iovecs)), refl)
  iovecs_of_each_cuts (bytes ∷ buffers) iovecs =
      let (us, e, cut) = generate_iovecs_single_cuts bytes in
      let (ws, es, cuts) = iovecs_of_each_cuts buffers (iovecs ++ us) in
      (
        us ++ ws,
        rw (e, iovecs_of_each) (es ∙ ap some (append_assoc iovecs us ws)),
        (us, ws, refl, cut, cuts),
      )

  loops_cut :
      (source : IoVecInputSource) (max : ℕ)
      → (vs : List (List ℕ)) × (generate_iovecs G max source ≡ some (valid_iovecs max vs))
        × IsCutOf source vs
  unfolding generate_iovecs valid_all
  loops_cut (IoVecInputSource.single bytes) max =
      let (vs, e, cut) = generate_iovecs_single_cuts bytes in (vs, rw e refl, cut)
  loops_cut (IoVecInputSource.multiple buffers) max =
      let (vs, e, cuts) = iovecs_of_each_cuts buffers [] in (vs, rw e refl, cuts)

  IsCut-gathered : (bytes : List ℕ) (vs : List (List ℕ)) → IsCut bytes vs → gathered vs ≡ bytes
  IsCut-gathered bytes [] h = sym h
  IsCut-gathered bytes (v ∷ vs) (pos, e, cut) =
      let n = G.chunk bytes in
      ap₂ (λ a b. a ++ b) e (IsCut-gathered (drop n bytes) vs cut) ∙ take-drop n bytes

  AreCut-gathered :
      (buffers vs : List (List ℕ)) → AreCut buffers vs → gathered vs ≡ gathered buffers
  AreCut-gathered [] vs h = ap gathered h
  AreCut-gathered (bytes ∷ buffers) vs (us, ws, e, cut, cuts) =
      ap gathered e
      ∙ gathered-append us ws
      ∙ ap₂ (λ a b. a ++ b) (IsCut-gathered bytes us cut) (AreCut-gathered buffers ws cuts)

  IsCutOf-gathered :
      (source : IoVecInputSource) (vs : List (List ℕ))
      → IsCutOf source vs
      → gathered vs ≡ bytes_of source
  IsCutOf-gathered (IoVecInputSource.single bytes) vs h = IsCut-gathered bytes vs h
  IsCutOf-gathered (IoVecInputSource.multiple buffers) vs h = AreCut-gathered buffers vs h

  -- What is made of the pieces: an error if there are none, an error if there are too many, or the pieces.
  abbrev pub Outcome : ℕ → List (List ℕ) → Result (List (List ℕ)) InvalidIoVecError → Type 0
  Outcome max pieces (ok vs) = (vs ≡ pieces) × (length pieces ≤ max) × (0 < length pieces)
  Outcome max pieces (err InvalidIoVecError.no_data_for_io_vecs) = pieces ≡ []
  Outcome max pieces (err (InvalidIoVecError.too_many_io_vecs requested limit)) =
      (limit ≡ max) × (requested ≡ length pieces) × (max < length pieces)

  outcome_of : (max : ℕ) (vs : List (List ℕ)) → Outcome max vs (valid_iovecs max vs)
  unfolding valid_iovecs
  outcome_of max [] = refl
  outcome_of max (v ∷ vs) = elim (Bool-cases (ltb max (length (v ∷ vs)))) [
    | inl big ↦ rw (big) (refl, refl, ground arith)
    | inr fits ↦ rw (fits) (refl, ground arith, omega arith)
  ]

  -- For one buffer or several, the loops end: with the error of no data if the buffers cut into no pieces,
  -- with the error of too many vectors, their number and the limit if they cut into more pieces than the
  -- limit, and otherwise with the pieces, which one after the other are the bytes of the buffers.
  pub generate_iovecs_lem :
      (source : IoVecInputSource) (max : ℕ)
      → (pieces : List (List ℕ)) × (r : Result (List (List ℕ)) InvalidIoVecError) × IsCutOf source
          pieces
        × (gathered pieces ≡ bytes_of source)
        × (generate_iovecs G max source ≡ some r)
        × Outcome max pieces r
  generate_iovecs_lem source max =
      let (vs, e, cut) = loops_cut source max in
      (vs, valid_iovecs max vs, cut, IsCutOf-gathered source vs cut, e, outcome_of max vs)
