-- ===== src/Net/Address/Resolve.antt =====
-- src/net/address.rs: `IpAddress::v6`, the resolution of host names, and `TryFrom<&str>`.
pub mod Dotted
pub mod Brackets
pub mod Bytes
pub mod Groups
pub mod RoundTrip
pub mod LoneZero
use cl_async.Base.{
  ℕ, zero, suc, ◌-◌, ◌==◌, Bool, true, false, ◌&&◌, if◌then◌else◌, Option, none, some, Result, ok,
  err, List, [], ◌∷◌, length, take, drop,
}
use cl_async.Net.Address.{Bytes4, IpAddress, be32, to_be_bytes}
use cl_async.Net.Address.Text.{Text, includes, starts_with, trim}
use cl_async.Net.Address.Parse.{
  IpV4ParseError, IpV6UncompressError, V4MappedV6Error, v4_from_str, parse_mapped_v6, uncompress_v6,
  uncompressed_v6_as_bytes, is_v4, is_v6, is_mapped_v6, is_compressed_v6,
}

pub data IpVersion : Type 0 where
  version_4 version_6 : IpVersion

pub data SocketType : Type 0 where
  stream datagram : SocketType

pub record ResolveHostnamePreferences : Type 0 where
  pub version : Option IpVersion
  pub socket_type : Option SocketType

abbrev pub no_preferences : ResolveHostnamePreferences
no_preferences = record { version = none; socket_type = none }

pub data HostnameResolutionError : Type 0 where
  invalid_c_string : HostnameResolutionError
  resolution_failure : (code : ℕ) → HostnameResolutionError

pub data IpParseError : Type 0 where
  no_address_found : IpParseError
  ip_v4_parse_error : IpV4ParseError → IpParseError
  ip_v6_uncompress_error : IpV6UncompressError → IpParseError
  v4_mapped_v6_error : V4MappedV6Error → IpParseError
  hostname_resolution_error : HostnameResolutionError → IpParseError

-- An entry of what `getaddrinfo` gives, by its family.
pub data AddrInfo : Type 0 where
  af_inet : (s_addr : ℕ) → AddrInfo
  af_inet6 : (s6_addr : List ℕ) → AddrInfo
  af_other : AddrInfo

unfoldable pub ends_with : ℕ → Text → Bool
ends_with c [] = false
ends_with c (x ∷ []) = x == c
ends_with c (x ∷ y ∷ s) = ends_with c (y ∷ s)

unfoldable pub is_bracketed : Text → Bool
unfolding ends_with
is_bracketed addr = starts_with (91 ∷ []) addr && ends_with 93 addr

-- The calls of `v6` on what stands between brackets. The length of the text is fuel enough.
unfoldable pub unbracketed : ℕ → Text → Text
unfolding is_bracketed
unbracketed zero addr = addr
unbracketed (suc fuel) addr = elim (is_bracketed addr) [
  | true ↦ unbracketed fuel (take (length addr - 2) (drop 1 addr))
  | false ↦ addr
]

-- The rest of `v6`.
unfoldable pub v6_as_bytes : Result Text IpV6UncompressError → Result IpAddress IpParseError
v6_as_bytes (err e) = err (ip_v6_uncompress_error e)
v6_as_bytes (ok uncompressed) = elim (uncompressed_v6_as_bytes uncompressed) [
  | err e ↦ err (ip_v6_uncompress_error e)
  | ok bytes ↦ ok (IpAddress.v6 bytes)
]

unfoldable pub v6_without_brackets : Text → Result IpAddress IpParseError
unfolding v6_as_bytes
v6_without_brackets addr =
    if is_mapped_v6 addr
    then elim (parse_mapped_v6 addr) [ err e ↦ err (v4_mapped_v6_error e) | ok ip ↦ ok ip ]
    else v6_as_bytes (if is_compressed_v6 addr then uncompress_v6 addr else ok addr)

unfoldable pub v6 : Text → Result IpAddress IpParseError
unfolding unbracketed v6_without_brackets
v6 addr = v6_without_brackets (unbracketed (length addr) addr)

unfoldable pub v4 : Text → Result IpAddress IpParseError
v4 addr = elim (v4_from_str addr) [ err e ↦ err (ip_v4_parse_error e) | ok ip ↦ ok ip ]

unfoldable pub resolved : Bool → List AddrInfo → List IpAddress
resolved little [] = []
resolved little (af_inet s_addr ∷ infos) =
    IpAddress.v4 (to_be_bytes (be32 little s_addr)) ∷ resolved little infos
resolved little (af_inet6 s6_addr ∷ infos) = IpAddress.v6 s6_addr ∷ resolved little infos
resolved little (af_other ∷ infos) = resolved little infos

-- `little` says whether the host is little-endian; an error of `getaddrinfo` is its code.
module _ (little : Bool)
    (getaddrinfo : Text → ResolveHostnamePreferences → Result (List AddrInfo) ℕ) where
  unfoldable pub resolve_hostname :
      Text → ResolveHostnamePreferences → Result (List IpAddress) HostnameResolutionError
  unfolding resolved
  resolve_hostname hostname pref =
      if includes (0 ∷ []) hostname
      then err invalid_c_string
      else elim (getaddrinfo hostname pref) [
        | err code ↦ err (resolution_failure code)
        | ok infos ↦ ok (resolved little infos)
      ]

  unfoldable pub first_resolved : Text → Result IpAddress IpParseError
  unfolding resolve_hostname
  first_resolved ip = elim (resolve_hostname ip no_preferences) [
    | err e ↦ err (hostname_resolution_error e)
    | ok [] ↦ err no_address_found
    | ok (first ∷ ips) ↦ ok first
  ]

  -- `TryFrom<&str> for IpAddress`.
  unfoldable pub try_from : Text → Result IpAddress IpParseError
  unfolding v4 v6 first_resolved
  try_from ip =
      let ip_formatted = trim ip in
      if is_v4 ip_formatted
      then v4 ip_formatted
      else if is_v6 ip_formatted
      then v6 ip_formatted
      else first_resolved ip_formatted
