-- ===== src/Io/Buffers/Input.antt =====
-- src/io/buffers.rs: the buffers that the kernel reads from.
pub mod Gather
use cl_async.Base.{
  ℕ, zero, suc, ◌==◌, Bool, true, false, if◌then◌else◌, List, [], ◌∷◌, ◌++◌, length, take, drop,
  Option, none, some, Result, ok, err,
}
use cl_async.Io.Buffers.{BytesCrate, InvalidIoVecError, valid_iovecs}

pub data InvalidIoInputBufferErrorKind : Type 0 where
  empty_input_buffer non_contiguous_input_buffer : InvalidIoInputBufferErrorKind

pub record InvalidIoInputBufferError : Type 0 where
  pub buffer : List ℕ
  pub kind : InvalidIoInputBufferErrorKind

pub record IoInputBuffer : Type 0 where
  pub bytes : List ℕ

pub data IoVecInputSource : Type 0 where
  single : List ℕ → IoVecInputSource
  multiple : List (List ℕ) → IoVecInputSource

pub record EmptySingleVectoredInputBufferError : Type 0 where
  pub buffer : List ℕ

pub data EmptyVectoredInputBufferError : Type 0 where
  empty_vectored : EmptyVectoredInputBufferError

unfoldable pub new_single : List ℕ → Result IoVecInputSource EmptySingleVectoredInputBufferError
new_single [] = err (record { buffer = [] })
new_single (b ∷ bytes) = ok (IoVecInputSource.single (b ∷ bytes))

unfoldable pub new_multiple : List (List ℕ) → Result IoVecInputSource EmptyVectoredInputBufferError
new_multiple [] = err EmptyVectoredInputBufferError.empty_vectored
new_multiple (b ∷ buffers) = ok (IoVecInputSource.multiple (b ∷ buffers))

-- `try_into_bytes`; `into_bytes` panics where this is `none`. `try_as_bytes` and the others that borrow
-- see the same.
unfoldable pub try_into_bytes : IoVecInputSource → Option (List ℕ)
try_into_bytes (IoVecInputSource.single bytes) = some bytes
try_into_bytes (IoVecInputSource.multiple buffers) = none

-- `try_as_vec`; `as_vec` and `into_vec` panic where this is `none`.
unfoldable pub try_as_vec : IoVecInputSource → Option (List (List ℕ))
try_as_vec (IoVecInputSource.single bytes) = none
try_as_vec (IoVecInputSource.multiple buffers) = some buffers

module _ (G : BytesCrate) where
  -- `IoInputBuffer::new`.
  unfoldable pub new_input : List ℕ → Result IoInputBuffer InvalidIoInputBufferError
  new_input [] =
      err (record { buffer = []; kind = InvalidIoInputBufferErrorKind.empty_input_buffer })
  new_input (b ∷ data_) =
      if G.chunk (b ∷ data_) == length (b ∷ data_)
      then ok (record { bytes = b ∷ data_ })
      else err (record {
        buffer = b ∷ data_;
        kind = InvalidIoInputBufferErrorKind.non_contiguous_input_buffer;
      })

  -- The loop of `generate_iovecs_single`, with the rounds that are left; a chunk of length 0 leaves
  -- everything as it was.
  unfoldable pub iovecs_loop : ℕ → List ℕ → List (List ℕ) → Option (List (List ℕ))
  iovecs_loop rounds [] iovecs = some iovecs
  iovecs_loop zero (b ∷ bytes) iovecs = none
  iovecs_loop (suc rounds) (b ∷ bytes) iovecs =
      let len = G.chunk (b ∷ bytes) in
      let advanced = if len == 0 then b ∷ bytes else drop len (b ∷ bytes) in
      let pushed = if len == 0 then iovecs else iovecs ++ take len (b ∷ bytes) ∷ [] in
      iovecs_loop rounds advanced pushed

  unfoldable pub generate_iovecs_single : List ℕ → Option (List (List ℕ))
  unfolding iovecs_loop
  generate_iovecs_single bytes = iovecs_loop (length bytes) bytes []

  -- The loop over a `Vec<Bytes>`; one that gives no vectors adds none.
  unfoldable pub iovecs_of_each : List (List ℕ) → List (List ℕ) → Option (List (List ℕ))
  unfolding generate_iovecs_single
  iovecs_of_each [] iovecs = some iovecs
  iovecs_of_each (bytes ∷ buffers) iovecs = elim (generate_iovecs_single bytes) [
    | none ↦ none
    | some iovecs_single ↦ iovecs_of_each buffers (iovecs ++ iovecs_single)
  ]

  -- `generate_iovecs` of a `Bytes`, of a `Vec<Bytes>` and of an `IoVecInputBuffer`; `max` is
  -- `IOV_MAX_LIMIT`, and `none` a loop that ran out of rounds.
  unfoldable pub valid_all :
      ℕ → Option (List (List ℕ)) → Option (Result (List (List ℕ)) InvalidIoVecError)
  unfolding valid_iovecs
  valid_all max none = none
  valid_all max (some iovecs) = some (valid_iovecs max iovecs)

  unfoldable pub generate_iovecs :
      ℕ → IoVecInputSource → Option (Result (List (List ℕ)) InvalidIoVecError)
  unfolding valid_all generate_iovecs_single iovecs_of_each
  generate_iovecs max (IoVecInputSource.single bytes) = valid_all max (generate_iovecs_single bytes)
  generate_iovecs max (IoVecInputSource.multiple buffers) =
      valid_all max (iovecs_of_each buffers [])
