-- ===== src/Io/ControlMessage/Level.antt =====
-- src/io/message.rs: a control message of any level.
use cl_async.Base.{ℕ, ◌==◌, if◌then◌else◌, Result, ok, err}
use cl_async.Io.ControlMessage.{RawControlMessageIn, RawControlMessageOut, and_then}
use cl_async.Io.ControlMessage.Abi.{Abi, LevelName}
use cl_async.Io.ControlMessage.Socket.{
  SocketLevelType, ParseControlMessageSocketError, prepare_socket, parse_socket,
}
use cl_async.Io.ControlMessage.IpV4.{
  IpV4LevelType, ParseControlMessageIpV4Error, PrepareControlMessageIpV4Error, prepare_ip_v4,
  parse_ip_v4,
}
use cl_async.Io.ControlMessage.IpV6.{
  IpV6LevelType, ParseControlMessageIpV6Error, PrepareControlMessageIpV6Error, prepare_ip_v6,
  parse_ip_v6,
}
use cl_async.Io.ControlMessage.Tls.{
  TlsLevelType, ParseControlMessageTlsError, prepare_tls, parse_tls,
}

pub data IoControlMessageLevel : Type 0 where
  socket : SocketLevelType → IoControlMessageLevel
  ip_v4 : IpV4LevelType → IoControlMessageLevel
  ip_v6 : IpV6LevelType → IoControlMessageLevel
  tls : TlsLevelType → IoControlMessageLevel

pub data ParseControlMessageError : Type 0 where
  socket_error : ParseControlMessageSocketError → ParseControlMessageError
  ip_v4_error : ParseControlMessageIpV4Error → ParseControlMessageError
  ip_v6_error : ParseControlMessageIpV6Error → ParseControlMessageError
  tls_error : ParseControlMessageTlsError → ParseControlMessageError
  invalid_control_message_level : ℕ → ParseControlMessageError
  null_pointer : ParseControlMessageError
  invalid_control_message_length : (expected actual : ℕ) → ParseControlMessageError

pub data PrepareControlMessageError : Type 0 where
  unsendable_socket : ℕ → PrepareControlMessageError
  ip_v4_error : PrepareControlMessageIpV4Error → PrepareControlMessageError
  ip_v6_error : PrepareControlMessageIpV6Error → PrepareControlMessageError
  unsendable_tls : ℕ → PrepareControlMessageError

module _ (A : Abi) where
  unfoldable pub prepare_level :
      IoControlMessageLevel → Result RawControlMessageOut PrepareControlMessageError
  unfolding and_then prepare_socket prepare_ip_v4 prepare_ip_v6 prepare_tls
  prepare_level (IoControlMessageLevel.socket m) =
      and_then (prepare_socket A m) PrepareControlMessageError.unsendable_socket ok
  prepare_level (IoControlMessageLevel.ip_v4 m) =
      and_then (prepare_ip_v4 A m) PrepareControlMessageError.ip_v4_error ok
  prepare_level (IoControlMessageLevel.ip_v6 m) =
      and_then (prepare_ip_v6 A m) PrepareControlMessageError.ip_v6_error ok
  prepare_level (IoControlMessageLevel.tls m) =
      and_then (prepare_tls A m) PrepareControlMessageError.unsendable_tls ok

  unfoldable pub parse_level :
      RawControlMessageIn → Result IoControlMessageLevel ParseControlMessageError
  unfolding and_then parse_socket parse_ip_v4 parse_ip_v6 parse_tls
  parse_level cmsg =
      if cmsg.message_level == A.level LevelName.sol_socket
      then and_then (parse_socket A cmsg) ParseControlMessageError.socket_error
          (λ m. ok (IoControlMessageLevel.socket m))
      else if cmsg.message_level == A.level LevelName.ipproto_ip
      then and_then (parse_ip_v4 A cmsg) ParseControlMessageError.ip_v4_error
          (λ m. ok (IoControlMessageLevel.ip_v4 m))
      else if cmsg.message_level == A.level LevelName.ipproto_ipv6
      then and_then (parse_ip_v6 A cmsg) ParseControlMessageError.ip_v6_error
          (λ m. ok (IoControlMessageLevel.ip_v6 m))
      else if cmsg.message_level == A.level LevelName.sol_tls
      then and_then (parse_tls A cmsg) ParseControlMessageError.tls_error
          (λ m. ok (IoControlMessageLevel.tls m))
      else err (ParseControlMessageError.invalid_control_message_level cmsg.message_level)
