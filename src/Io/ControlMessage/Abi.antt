-- ===== src/Io/ControlMessage/Abi.antt =====
-- src/io/message.rs, src/net/mod.rs: what the control messages carry, on libc's side and on the crate's.
--
-- `Abi` is what libc is relied on for: the values of the constants, different ones within a level, and
-- the bytes of the structures.
use cl_async.Base.{ℕ, ◌≡◌, ◌==◌, List, Option, none, some, Result, ok, err}
use cl_async.Base.Int.{ℤ, as_i32, as_u32}
use cl_async.Io.ControlMessage.{Plain}
use cl_async.Net.Address.{IpAddress, Bytes4, from_be_bytes, to_be_bytes}

pub data LevelName : Type 0 where
  sol_socket ipproto_ip ipproto_ipv6 sol_tls : LevelName

pub data SocketKind : Type 0 where
  scm_rights scm_credentials scm_timestamp scm_timestampns scm_timestamping : SocketKind

pub data IpV4Kind : Type 0 where
  ip_pktinfo ip_ttl ip_recverr : IpV4Kind

pub data IpV6Kind : Type 0 where
  ipv6_pktinfo ipv6_hoplimit ipv6_tclass ipv6_recverr : IpV6Kind

pub data TlsKind : Type 0 where
  tls_set_record_type tls_get_record_type : TlsKind

abbrev pub level_index : LevelName → ℕ
level_index LevelName.sol_socket = 0
level_index LevelName.ipproto_ip = 1
level_index LevelName.ipproto_ipv6 = 2
level_index LevelName.sol_tls = 3

abbrev pub socket_index : SocketKind → ℕ
socket_index SocketKind.scm_rights = 0
socket_index SocketKind.scm_credentials = 1
socket_index SocketKind.scm_timestamp = 2
socket_index SocketKind.scm_timestampns = 3
socket_index SocketKind.scm_timestamping = 4

abbrev pub ip_v4_index : IpV4Kind → ℕ
ip_v4_index IpV4Kind.ip_pktinfo = 0
ip_v4_index IpV4Kind.ip_ttl = 1
ip_v4_index IpV4Kind.ip_recverr = 2

abbrev pub ip_v6_index : IpV6Kind → ℕ
ip_v6_index IpV6Kind.ipv6_pktinfo = 0
ip_v6_index IpV6Kind.ipv6_hoplimit = 1
ip_v6_index IpV6Kind.ipv6_tclass = 2
ip_v6_index IpV6Kind.ipv6_recverr = 3

abbrev pub tls_index : TlsKind → ℕ
tls_index TlsKind.tls_set_record_type = 0
tls_index TlsKind.tls_get_record_type = 1

pub record Ucred : Type 0 where
  pub pid : ℤ
  pub uid : ℕ
  pub gid : ℕ

pub record Timeval : Type 0 where
  pub tv_sec : ℤ
  pub tv_usec : ℤ

pub record Timespec : Type 0 where
  pub tv_sec : ℤ
  pub tv_nsec : ℤ

pub record InPktinfo : Type 0 where
  pub ipi_ifindex : ℤ
  pub ipi_spec_dst : ℕ
  pub ipi_addr : ℕ

pub record In6Pktinfo : Type 0 where
  pub ipi6_addr : List ℕ
  pub ipi6_ifindex : ℕ

pub record SockExtendedErr : Type 0 where
  pub ee_errno : ℕ
  pub ee_origin : ℕ
  pub ee_type : ℕ
  pub ee_code : ℕ
  pub ee_pad : ℕ
  pub ee_info : ℕ
  pub ee_data : ℕ

-- `TlsRecordType`, a `repr(u8)`; a byte that is none of its discriminants is undefined behaviour.
pub data TlsRecordType : Type 0 where
  change_cipher_spec alert handshake application_data heartbeat : TlsRecordType

pub record Abi : Type 1 where
  pub level : LevelName → ℕ
  pub socket : SocketKind → ℕ
  pub ip_v4 : IpV4Kind → ℕ
  pub ip_v6 : IpV6Kind → ℕ
  pub tls : TlsKind → ℕ
  pub level_same : (a b : LevelName) → (level a == level b) ≡ (level_index a == level_index b)
  pub socket_same : (a b : SocketKind) → (socket a == socket b) ≡ (socket_index a == socket_index b)
  pub ip_v4_same : (a b : IpV4Kind) → (ip_v4 a == ip_v4 b) ≡ (ip_v4_index a == ip_v4_index b)
  pub ip_v6_same : (a b : IpV6Kind) → (ip_v6 a == ip_v6 b) ≡ (ip_v6_index a == ip_v6_index b)
  pub tls_same : (a b : TlsKind) → (tls a == tls b) ≡ (tls_index a == tls_index b)
  pub c_int : Plain ℤ
  pub ucred : Plain Ucred
  pub timeval : Plain Timeval
  pub timespec : Plain Timespec
  pub in_pktinfo : Plain InPktinfo
  pub in6_pktinfo : Plain In6Pktinfo
  pub sock_extended_err : Plain SockExtendedErr
  pub tls_record_type : Plain TlsRecordType

pub record Credentials : Type 0 where
  pub process_id : ℕ
  pub user_id : ℕ
  pub group_id : ℕ

-- `From<ucred> for Credentials`.
unfoldable pub from_ucred : Ucred → Credentials
from_ucred u = record { process_id = as_u32 u.pid; user_id = u.uid; group_id = u.gid }

-- `Into<ucred> for Credentials`.
unfoldable pub into_ucred : Credentials → Ucred
into_ucred c = record { pid = as_i32 c.process_id; uid = c.user_id; gid = c.group_id }

pub record PacketInfo : Type 0 where
  pub interface_index : ℕ
  pub destination : IpAddress
  pub specific_destination : Option IpAddress

pub data LibcPktInfo : Type 0 where
  v4 : InPktinfo → LibcPktInfo
  v6 : In6Pktinfo → LibcPktInfo

-- `From<in_pktinfo> for PacketInfo`.
unfoldable pub from_in_pktinfo : InPktinfo → PacketInfo
from_in_pktinfo p = record {
  interface_index = as_u32 p.ipi_ifindex;
  destination = IpAddress.v4 (to_be_bytes p.ipi_addr);
  specific_destination = some (IpAddress.v4 (to_be_bytes p.ipi_spec_dst));
}

-- `From<in6_pktinfo> for PacketInfo`.
unfoldable pub from_in6_pktinfo : In6Pktinfo → PacketInfo
from_in6_pktinfo p = record {
  interface_index = p.ipi6_ifindex;
  destination = IpAddress.v6 p.ipi6_addr;
  specific_destination = none;
}

-- The match on `specific_destination` for a V4 destination.
unfoldable pub v4_pktinfo : ℕ → Bytes4 → Option IpAddress → Option InPktinfo
v4_pktinfo index destination (some (IpAddress.v4 specific)) = some (record {
  ipi_ifindex = as_i32 index;
  ipi_spec_dst = from_be_bytes specific;
  ipi_addr = from_be_bytes destination;
})
v4_pktinfo index destination other = none

-- `TryInto<LibCPktInfo> for PacketInfo`: the error carries the packet info.
unfoldable pub try_into_pktinfo : PacketInfo → Result LibcPktInfo PacketInfo
unfolding v4_pktinfo
try_into_pktinfo p = elim p.destination [
  | IpAddress.v4 be_bytes ↦ elim (v4_pktinfo p.interface_index be_bytes p.specific_destination) [
    | none ↦ err p
    | some pktinfo ↦ ok (LibcPktInfo.v4 pktinfo)
  ]
  | IpAddress.v6 be_bytes ↦
      ok (LibcPktInfo.v6 (record { ipi6_addr = be_bytes; ipi6_ifindex = p.interface_index }))
]

pub record CsockExtendedError : Type 0 where
  pub errno : ℕ
  pub origin : ℕ
  pub type_ : ℕ
  pub code : ℕ
  pub pad : ℕ
  pub info : ℕ
  pub data_ : ℕ

-- `From<sock_extended_err> for CSockExtendedError`.
unfoldable pub from_sock_extended_err : SockExtendedErr → CsockExtendedError
from_sock_extended_err e = record {
  errno = e.ee_errno;
  origin = e.ee_origin;
  type_ = e.ee_type;
  code = e.ee_code;
  pad = e.ee_pad;
  info = e.ee_info;
  data_ = e.ee_data;
}
