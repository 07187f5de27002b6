-- ===== src/Io/ControlMessage.antt =====
-- src/io/message.rs: raw control messages, and the values of libc that they carry as bytes.
--
-- The C interface is the parameter `Abi`: the constants, the bytes of a structure (`Plain`), and what
-- the macros `CMSG_LEN` and `CMSG_SPACE` and the type `cmsghdr` are documented to do. A `c_int` that is a
-- constant is a `ℕ`. Bytes are numbers; what lies behind a pointer is a list.
pub mod Abi
pub mod Socket
pub mod IpV4
pub mod IpV6
pub mod Tls
pub mod Copies
pub mod Level
pub mod RoundTrip
pub mod Framing
use cl_async.Base.{
  ℕ, zero, suc, ◌+◌, ◌*◌, ◌/◌, ◌%◌, ◌^◌, ◌≤◌, ◌<◌, ◌≡◌, ◌==◌, Bool, if◌then◌else◌, List, [], ◌∷◌,
  ◌++◌, length, drop, Result, ok, err,
}
use cl_async.Base.Int.{ℤ}

-- A type whose values are copied byte by byte: `size_of`, writing and reading. `IsValue` tells the values
-- that the type has, as the numbers of the model are not bounded.
pub record Plain (A : Type 0) : Type 1 where
  pub size : ℕ
  pub write : A → List ℕ
  pub read : List ℕ → A
  pub IsValue : A → Type 0
  pub size-pos : 0 < size
  pub length-write : (a : A) → IsValue a → length (write a) ≡ size
  pub read-write : (a : A) (rest : List ℕ) → IsValue a → read (write a ++ rest) ≡ a

pub record RawControlMessageIn : Type 0 where
  pub message_level : ℕ
  pub message_type : ℕ
  pub data_len : ℕ
  pub data_ptr : List ℕ

pub record RawControlMessageOut : Type 0 where
  pub message_level : ℕ
  pub message_type : ℕ
  pub payload : List ℕ

pub record FromMessageInError : Type 0 where
  pub expected : ℕ
  pub actual : ℕ

module _ {A : Type 0} (P : Plain A) where
  -- `copy_nonoverlapping` of several values, and from several.
  unfoldable pub write_all : List A → List ℕ
  write_all [] = []
  write_all (x ∷ xs) = P.write x ++ write_all xs

  unfoldable pub read_all : ℕ → List ℕ → List A
  read_all zero bytes = []
  read_all (suc n) bytes = P.read bytes ∷ read_all n (drop P.size bytes)

  -- `fill_msg_out_multi` and `fill_msg_out_single`, on a message that is fresh.
  unfoldable pub fill_msg_out_multi : ℕ → ℕ → List A → RawControlMessageOut
  unfolding write_all
  fill_msg_out_multi message_level message_type values = record {
    message_level = message_level;
    message_type = message_type;
    payload = write_all values;
  }

  unfoldable pub fill_msg_out_single : ℕ → ℕ → A → RawControlMessageOut
  fill_msg_out_single message_level message_type value = record {
    message_level = message_level;
    message_type = message_type;
    payload = P.write value;
  }

  unfoldable pub from_msg_in_multi : RawControlMessageIn → ℕ → Result (List A) FromMessageInError
  unfolding read_all
  from_msg_in_multi msg n =
      if msg.data_len == P.size * n
      then ok (read_all n msg.data_ptr)
      else err (record { expected = P.size * n; actual = msg.data_len })

  unfoldable pub from_msg_in_single : RawControlMessageIn → Result A FromMessageInError
  from_msg_in_single msg =
      if msg.data_len == P.size
      then ok (P.read msg.data_ptr)
      else err (record { expected = P.size; actual = msg.data_len })

-- `map_err(…)?`, and what follows.
unfoldable pub and_then : {A B E F : Type 0} → Result A E → (E → F) → (A → Result B F) → Result B F
and_then (ok a) wrap next = next a
and_then (err e) wrap next = err (wrap e)

pub record CmsgHeader : Type 0 where
  pub cmsg_len : ℕ
  pub cmsg_level : ℕ
  pub cmsg_type : ℕ

-- `as _` to the `c_uint` that `CMSG_LEN` and `CMSG_SPACE` take.
unfoldable pub as_c_uint : ℕ → ℕ
as_c_uint n = n % 2 ^ 32

-- `cmsghdr`, whose bytes are those up to the data, `CMSG_LEN(0)` of them, and `CMSG_LEN` and `CMSG_SPACE` of a
-- `c_uint`. Their results are `c_uint` too, and wrap: `overhead` is the most that they add to a length, so
-- that they are what they are documented to be for lengths that stay below 2^32 with it. `padding` is the
-- bytes between a message and the next one, which no code writes.
pub record Cmsg : Type 1 where
  pub header : Plain CmsgHeader
  pub len : ℕ → ℕ
  pub space : ℕ → ℕ
  pub overhead : ℕ
  pub padding : ℕ → List ℕ
  pub len_lem : (n : ℕ) → n + overhead < 2 ^ 32 → len n ≡ header.size + n
  pub space-ge : (n : ℕ) → n + overhead < 2 ^ 32 → header.size + n ≤ space n
  pub length-padding : (n : ℕ) → length (padding n) ≡ n

-- The two traits of a control message, and when what is prepared is also understood: the interface
-- between the levels and the framing.
pub record ControlMessage : Type 1 where
  pub Message : Type 0
  pub ParseError : Type 0
  pub PrepareError : Type 0
  pub parse : RawControlMessageIn → Result Message ParseError
  pub prepare : Message → Result RawControlMessageOut PrepareError
  pub IsReceivable : Message → Type 0
  pub received : Message → Message
  pub comes_through :
      (m : Message)
      → IsReceivable m
      → (raw : RawControlMessageOut) × (prepare m ≡ ok raw)
        × ((rest : List ℕ)
            → parse (record {
              message_level = raw.message_level;
              message_type = raw.message_type;
              data_len = length raw.payload;
              data_ptr = raw.payload ++ rest;
            })
              ≡ ok (received m))
