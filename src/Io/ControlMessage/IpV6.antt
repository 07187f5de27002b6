-- ===== src/Io/ControlMessage/IpV6.antt =====
-- src/io/message.rs: the control messages of the level `IPPROTO_IPV6`.
use cl_async.Base.{ℕ, ◌==◌, if◌then◌else◌, Result, ok, err}
use cl_async.Base.Int.{ℤ, pos, as_u8}
use cl_async.Io.ControlMessage.{
  RawControlMessageIn, RawControlMessageOut, FromMessageInError, fill_msg_out_single,
  from_msg_in_single, and_then,
}
use cl_async.Io.ControlMessage.Abi.{
  Abi, LevelName, IpV6Kind, PacketInfo, LibcPktInfo, from_in6_pktinfo, try_into_pktinfo,
  CsockExtendedError, from_sock_extended_err,
}
use cl_async.Io.TrafficClass.{IpV6TrafficClass, class_from, class_into}

pub data IpV6LevelType : Type 0 where
  packet_info : PacketInfo → IpV6LevelType
  hop_limit : ℤ → IpV6LevelType
  class_ : IpV6TrafficClass → IpV6LevelType

pub data ParseControlMessageIpV6Error : Type 0 where
  failed_to_retrieve_packet_info : FromMessageInError → ParseControlMessageIpV6Error
  failed_to_retrieve_hop_limit : FromMessageInError → ParseControlMessageIpV6Error
  failed_to_retrieve_traffic_class : FromMessageInError → ParseControlMessageIpV6Error
  failed_to_retrieve_extended_error : FromMessageInError → ParseControlMessageIpV6Error
  extended_socket_error : CsockExtendedError → ParseControlMessageIpV6Error
  invalid_control_message_type : (message_type message_level : ℕ) → ParseControlMessageIpV6Error

pub data PrepareControlMessageIpV6Error : Type 0 where
  packet_info_conversion_error : PacketInfo → PrepareControlMessageIpV6Error
  expected_ip_v6_packet_info : PrepareControlMessageIpV6Error

module _ (A : Abi) where
  -- The match on the `LibCPktInfo`.
  unfoldable pub v6_message :
      Result LibcPktInfo PacketInfo → Result RawControlMessageOut PrepareControlMessageIpV6Error
  unfolding fill_msg_out_single
  v6_message (err p) = err (PrepareControlMessageIpV6Error.packet_info_conversion_error p)
  v6_message (ok (LibcPktInfo.v4 pktinfo)) =
      err PrepareControlMessageIpV6Error.expected_ip_v6_packet_info
  v6_message (ok (LibcPktInfo.v6 pktinfo)) = ok (
      fill_msg_out_single A.in6_pktinfo (A.level LevelName.ipproto_ipv6)
        (A.ip_v6 IpV6Kind.ipv6_pktinfo) pktinfo)

  unfoldable pub prepare_ip_v6 :
      IpV6LevelType → Result RawControlMessageOut PrepareControlMessageIpV6Error
  unfolding v6_message try_into_pktinfo fill_msg_out_single class_into
  prepare_ip_v6 (IpV6LevelType.packet_info p) = v6_message (try_into_pktinfo p)
  prepare_ip_v6 (IpV6LevelType.hop_limit hops) = ok (
      fill_msg_out_single A.c_int (A.level LevelName.ipproto_ipv6) (A.ip_v6 IpV6Kind.ipv6_hoplimit)
        hops)
  prepare_ip_v6 (IpV6LevelType.class_ c) = ok (
      fill_msg_out_single A.c_int (A.level LevelName.ipproto_ipv6) (A.ip_v6 IpV6Kind.ipv6_tclass)
        (pos (class_into c)))

  unfoldable pub parse_ip_v6 :
      RawControlMessageIn → Result IpV6LevelType ParseControlMessageIpV6Error
  unfolding and_then from_msg_in_single from_in6_pktinfo from_sock_extended_err class_from
  parse_ip_v6 cmsg =
      if cmsg.message_type == A.ip_v6 IpV6Kind.ipv6_pktinfo
      then and_then (from_msg_in_single A.in6_pktinfo cmsg)
          ParseControlMessageIpV6Error.failed_to_retrieve_packet_info
          (λ pktinfo. ok (IpV6LevelType.packet_info (from_in6_pktinfo pktinfo)))
      else if cmsg.message_type == A.ip_v6 IpV6Kind.ipv6_hoplimit
      then and_then (from_msg_in_single A.c_int cmsg)
          ParseControlMessageIpV6Error.failed_to_retrieve_hop_limit
          (λ hops. ok (IpV6LevelType.hop_limit hops))
      else if cmsg.message_type == A.ip_v6 IpV6Kind.ipv6_tclass
      then and_then (from_msg_in_single A.c_int cmsg)
          ParseControlMessageIpV6Error.failed_to_retrieve_traffic_class
          (λ c. ok (IpV6LevelType.class_ (class_from (as_u8 c))))
      else if cmsg.message_type == A.ip_v6 IpV6Kind.ipv6_recverr
      then and_then (from_msg_in_single A.sock_extended_err cmsg)
          ParseControlMessageIpV6Error.failed_to_retrieve_extended_error
          (λ e. err (ParseControlMessageIpV6Error.extended_socket_error (from_sock_extended_err e)))
      else err (
          ParseControlMessageIpV6Error.invalid_control_message_type cmsg.message_type
            (A.level LevelName.ipproto_ipv6))
