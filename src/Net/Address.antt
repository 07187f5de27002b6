-- ===== src/Net/Address.antt =====
-- src/net/address.rs: addresses and ports, and the structures of libc that carry them.
--
-- A `sockaddr_storage` is the structure that is written into it, by its family, without the fields that
-- are zero. A `u16` or
-- `u32` is the number that the host reads in it: `little` says whether the host is little-endian, which
-- is when `to_be` and `from_be` swap the bytes.
pub mod Text
pub mod Compress
pub mod Parse
pub mod Display
pub mod Resolve
pub mod Storage
use cl_async.Base.{
  ℕ, ◌+◌, ◌*◌, ◌/◌, ◌%◌, ◌==◌, ◌<◌, ◌≡◌, Bool, true, false, if◌then◌else◌, Result, ok, err, List,
  [], ◌∷◌,
}

-- `[u8; 4]`.
pub record Bytes4 : Type 0 where
  pub b0 : ℕ
  pub b1 : ℕ
  pub b2 : ℕ
  pub b3 : ℕ

-- `IpAddress`; the sixteen bytes of a V6 address are a list.
pub data IpAddress : Type 0 where
  v4 : Bytes4 → IpAddress
  v6 : List ℕ → IpAddress

pub record SocketAddress : Type 0 where
  pub ip : IpAddress
  pub port : ℕ

-- `sockaddr_storage`, by its family: `AF_INET`, `AF_INET6`, or another one.
pub data SockaddrStorage : Type 0 where
  sockaddr_in : (sin_port : ℕ) (s_addr : ℕ) → SockaddrStorage
  sockaddr_in6 : (sin6_port : ℕ) (s6_addr : List ℕ) → SockaddrStorage
  other : (ss_family : ℕ) → SockaddrStorage

pub swap16 : ℕ → ℕ
swap16 x = x % 256 * 256 + x / 256

pub swap32 : ℕ → ℕ
swap32 x = x % 256 * 16777216 + x / 256 % 256 * 65536 + x / 65536 % 256 * 256 + x / 16777216

-- `u32::from_be_bytes` and `u32::to_be_bytes`.
pub from_be_bytes : Bytes4 → ℕ
from_be_bytes b = b.b0 * 16777216 + b.b1 * 65536 + b.b2 * 256 + b.b3

pub to_be_bytes : ℕ → Bytes4
to_be_bytes x = record { b0 = x / 16777216; b1 = x / 65536 % 256; b2 = x / 256 % 256; b3 = x % 256 }

module _ (little : Bool) where
  -- `u16::to_be` and `u16::from_be`; `u32::to_be` and `u32::from_be`.
  pub be16 : ℕ → ℕ
  be16 x = if little then swap16 x else x

  pub be32 : ℕ → ℕ
  be32 x = if little then swap32 x else x

  -- `Into<sockaddr_storage> for SocketAddress`.
  unfoldable pub into_storage : SocketAddress → SockaddrStorage
  unfolding be16 be32 from_be_bytes
  into_storage a = elim a.ip [
    | v4 be_bytes ↦ sockaddr_in (be16 a.port) (be32 (from_be_bytes be_bytes))
    | v6 be_bytes ↦ sockaddr_in6 (be16 a.port) be_bytes
  ]

  -- `TryFrom<sockaddr_storage> for SocketAddress`; the error carries the family.
  unfoldable pub try_from : SockaddrStorage → Result SocketAddress ℕ
  unfolding be16 be32 to_be_bytes
  try_from (sockaddr_in sin_port s_addr) =
      ok (record { ip = v4 (to_be_bytes (be32 s_addr)); port = be16 sin_port })
  try_from (sockaddr_in6 sin6_port s6_addr) = ok (record { ip = v6 s6_addr; port = be16 sin6_port })
  try_from (other ss_family) = err ss_family
