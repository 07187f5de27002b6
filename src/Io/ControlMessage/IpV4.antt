-- ===== src/Io/ControlMessage/IpV4.antt =====
-- src/io/message.rs: the control messages of the level `IPPROTO_IP`.
use cl_async.Base.{ℕ, ◌==◌, if◌then◌else◌, Result, ok, err}
use cl_async.Base.Int.{ℤ}
use cl_async.Io.ControlMessage.{
  RawControlMessageIn, RawControlMessageOut, FromMessageInError, fill_msg_out_single,
  from_msg_in_single, and_then,
}
use cl_async.Io.ControlMessage.Abi.{
  Abi, LevelName, IpV4Kind, PacketInfo, LibcPktInfo, from_in_pktinfo, try_into_pktinfo,
  CsockExtendedError, from_sock_extended_err,
}

pub data IpV4LevelType : Type 0 where
  packet_info : PacketInfo → IpV4LevelType
  time_to_live : ℤ → IpV4LevelType

pub data ParseControlMessageIpV4Error : Type 0 where
  failed_to_retrieve_time_to_live : FromMessageInError → ParseControlMessageIpV4Error
  failed_to_retrieve_packet_info : FromMessageInError → ParseControlMessageIpV4Error
  failed_to_retrieve_extended_error : FromMessageInError → ParseControlMessageIpV4Error
  extended_socket_error : CsockExtendedError → ParseControlMessageIpV4Error
  invalid_control_message_type : (message_type message_level : ℕ) → ParseControlMessageIpV4Error

pub data PrepareControlMessageIpV4Error : Type 0 where
  packet_info_conversion_error : PacketInfo → PrepareControlMessageIpV4Error
  expected_ip_v4_packet_info : PrepareControlMessageIpV4Error

module _ (A : Abi) where
  -- The match on the `LibCPktInfo`.
  unfoldable pub v4_message :
      Result LibcPktInfo PacketInfo → Result RawControlMessageOut PrepareControlMessageIpV4Error
  unfolding fill_msg_out_single
  v4_message (err p) = err (PrepareControlMessageIpV4Error.packet_info_conversion_error p)
  v4_message (ok (LibcPktInfo.v6 pktinfo)) =
      err PrepareControlMessageIpV4Error.expected_ip_v4_packet_info
  v4_message (ok (LibcPktInfo.v4 pktinfo)) = ok (
      fill_msg_out_single A.in_pktinfo (A.level LevelName.ipproto_ip) (A.ip_v4 IpV4Kind.ip_pktinfo)
        pktinfo)

  unfoldable pub prepare_ip_v4 :
      IpV4LevelType → Result RawControlMessageOut PrepareControlMessageIpV4Error
  unfolding v4_message try_into_pktinfo fill_msg_out_single
  prepare_ip_v4 (IpV4LevelType.packet_info p) = v4_message (try_into_pktinfo p)
  prepare_ip_v4 (IpV4LevelType.time_to_live ttl) =
      ok (fill_msg_out_single A.c_int (A.level LevelName.ipproto_ip) (A.ip_v4 IpV4Kind.ip_ttl) ttl)

  unfoldable pub parse_ip_v4 :
      RawControlMessageIn → Result IpV4LevelType ParseControlMessageIpV4Error
  unfolding and_then from_msg_in_single from_in_pktinfo from_sock_extended_err
  parse_ip_v4 cmsg =
      if cmsg.message_type == A.ip_v4 IpV4Kind.ip_pktinfo
      then and_then (from_msg_in_single A.in_pktinfo cmsg)
          ParseControlMessageIpV4Error.failed_to_retrieve_packet_info
          (λ pktinfo. ok (IpV4LevelType.packet_info (from_in_pktinfo pktinfo)))
      else if cmsg.message_type == A.ip_v4 IpV4Kind.ip_ttl
      then and_then (from_msg_in_single A.c_int cmsg)
          ParseControlMessageIpV4Error.failed_to_retrieve_time_to_live
          (λ ttl. ok (IpV4LevelType.time_to_live ttl))
      else if cmsg.message_type == A.ip_v4 IpV4Kind.ip_recverr
      then and_then (from_msg_in_single A.sock_extended_err cmsg)
          ParseControlMessageIpV4Error.failed_to_retrieve_extended_error
          (λ e. err (ParseControlMessageIpV4Error.extended_socket_error (from_sock_extended_err e)))
      else err (
          ParseControlMessageIpV4Error.invalid_control_message_type cmsg.message_type
            (A.level LevelName.ipproto_ip))
