-- ===== src/Io/Buffers.antt =====
-- src/io/buffers.rs: buffers that the kernel reads from and writes into.
--
-- A `Bytes` is the list of its bytes. A `BytesMut` is its memory up to the capacity and its length: the
-- bytes behind the length are not initialised, and the kernel writes there. What the crate `bytes` does
-- is the parameter `BytesCrate`. An `iovec` names a buffer by its place in the vector; one that is only
-- read from is the bytes that it points at.
pub mod Input
pub mod Output
pub mod Messages
use cl_async.Base.{
  ℕ, ◌+◌, ◌-◌, ◌<◌, ◌≤◌, ◌==◌, ltb, if◌then◌else◌, List, [], ◌∷◌, ◌++◌, length, take, drop, Result,
  ok, err,
}
use cl_async.Base.Int.{ℤ, pos, negsuc}

pub record BytesMut : Type 0 where
  pub memory : List ℕ
  pub len : ℕ

-- `chunk` of a `Bytes` gives a first part of it, which is not empty unless the `Bytes` is; the memory that
-- `reserve` adds to a full `BytesMut`, given what it holds, is not empty.
pub record BytesCrate : Type 0 where
  pub chunk : List ℕ → ℕ
  pub reserved : List ℕ → List ℕ
  pub chunk-pos : (bytes : List ℕ) → 0 < length bytes → 0 < chunk bytes
  pub chunk-le : (bytes : List ℕ) → chunk bytes ≤ length bytes
  pub reserved-pos : (memory : List ℕ) → 0 < length (reserved memory)

abbrev pub capacity : BytesMut → ℕ
capacity b = length b.memory

abbrev pub spare : BytesMut → ℕ
spare b = capacity b - b.len

abbrev pub contents : BytesMut → List ℕ
contents b = take b.len b.memory

-- `chunk_mut` of the crate: a full buffer grows first. The chunk is the memory behind the length.
unfoldable pub chunk_mut : BytesCrate → BytesMut → BytesMut
chunk_mut G b =
    if capacity b == b.len then record b { memory = b.memory ++ G.reserved b.memory } else b

-- `advance_mut` of the crate.
abbrev pub advance_mut : ℕ → BytesMut → BytesMut
advance_mut n b = record b { len = b.len + n }

abbrev default_iov_max : ℕ
default_iov_max = 1024

-- `IOV_MAX_LIMIT`, from what `sysconf` answers.
unfoldable pub iov_max_limit : ℤ → ℕ
iov_max_limit (negsuc n) = default_iov_max
iov_max_limit (pos limit) = if limit == 0 then default_iov_max else limit

pub data InvalidIoVecError : Type 0 where
  no_data_for_io_vecs : InvalidIoVecError
  too_many_io_vecs : (requested max : ℕ) → InvalidIoVecError

-- `assert_iovecs_valid(…)?`, and the vector it was about.
unfoldable pub valid_iovecs {ℓ} : {A : Type ℓ} → ℕ → List A → Result (List A) InvalidIoVecError
valid_iovecs max [] = err InvalidIoVecError.no_data_for_io_vecs
valid_iovecs max (v ∷ vs) =
    if ltb max (length (v ∷ vs))
    then err (InvalidIoVecError.too_many_io_vecs (length (v ∷ vs)) max)
    else ok (v ∷ vs)
