-- ===== src/Io/ControlMessage/RoundTrip.antt =====
-- src/io/message.rs: a control message that is prepared and then parsed.
use cl_async.Base.{
  All, ℕ, ◌+◌, ◌*◌, ◌/◌, ◌%◌, ◌^◌, ◌<◌, ◌≡◌, refl, ap₂, ltb, lt→ltb, true, List, Option, none, some,
  ok, arith,
}
use cl_async.Base.Int.{pos, as_u32, as_u64, as_u8, as_i32, as_u32-as_i32}
use cl_async.Net.Address.{IpAddress, from_be_bytes}
use cl_async.Net.Address.Storage.{AreBytes, to_be_bytes-from_be_bytes}
use cl_async.Io.ControlMessage.{
  ControlMessage, RawControlMessageOut, and_then, fill_msg_out_single, fill_msg_out_multi,
}
use cl_async.Io.ControlMessage.Abi.{
  Abi, LevelName, SocketKind, IpV4Kind, IpV6Kind, PacketInfo, from_ucred, into_ucred,
  from_in_pktinfo, from_in6_pktinfo, try_into_pktinfo, v4_pktinfo, Timeval,
}
use cl_async.Io.ControlMessage.Copies.{
  arrived, from_msg_in_single-arrived, from_msg_in_multi-arrived,
}
use cl_async.Io.ControlMessage.Socket.{
  SystemTime, SocketLevelType, prepare_socket, parse_socket, after_epoch, as_timestamp,
}
use cl_async.Io.ControlMessage.IpV4.{IpV4LevelType, prepare_ip_v4, parse_ip_v4, v4_message}
use cl_async.Io.ControlMessage.IpV6.{IpV6LevelType, prepare_ip_v6, parse_ip_v6, v6_message}
use cl_async.Io.ControlMessage.Level.{
  IoControlMessageLevel, ParseControlMessageError, PrepareControlMessageError, prepare_level,
  parse_level,
}
use cl_async.Io.TrafficClass.{class_into}
use cl_async.Io.TrafficClass.RoundTrip.{IsNamed, class_from-class_into}

-- A time as it comes out: in whole microseconds.
abbrev pub in_micros : SystemTime → SystemTime
in_micros t = record { secs = t.secs; nanos = t.nanos / 1000 * 1000 }

-- What the other side reads: a time in microseconds, a V6 packet info without a specific destination, and
-- everything else as it was.
abbrev pub received : IoControlMessageLevel → IoControlMessageLevel
received (IoControlMessageLevel.socket (SocketLevelType.timestamp t)) =
    IoControlMessageLevel.socket (SocketLevelType.timestamp (in_micros t))
received (IoControlMessageLevel.ip_v6 (IpV6LevelType.packet_info p)) =
    IoControlMessageLevel.ip_v6
      (IpV6LevelType.packet_info (record p { specific_destination = none }))
received m = m

abbrev pub timeval_of : SystemTime → Timeval
timeval_of t = record { tv_sec = pos t.secs; tv_usec = pos (t.nanos / 1000) }

abbrev pub IsV4Pair : Abi → ℕ → IpAddress → Option IpAddress → Type 0
IsV4Pair A i (IpAddress.v4 b) (some (IpAddress.v4 c)) =
    AreBytes b
    × AreBytes c
    × A.in_pktinfo.IsValue (record {
      ipi_ifindex = as_i32 i;
      ipi_spec_dst = from_be_bytes c;
      ipi_addr = from_be_bytes b;
    })
IsV4Pair A i a o = ⊥

abbrev pub IsV6 : Abi → ℕ → IpAddress → Type 0
IsV6 A i (IpAddress.v6 b) = A.in6_pktinfo.IsValue (record { ipi6_addr = b; ipi6_ifindex = i })
IsV6 A i (IpAddress.v4 b) = ⊥

timestamp_back :
    (t : SystemTime)
    → (t.secs < 2 ^ 63) × (t.nanos < 1000000000)
    → after_epoch (as_u64 (pos t.secs)) (as_u32 (pos (t.nanos / 1000)) * 1000 % 2 ^ 32)
      ≡ some (in_micros t)
unfolding after_epoch as_u64 as_u32
timestamp_back t (small, nanos) =
    let fits : (ltb (t.secs + t.nanos / 1000 * 1000 / 1000000000) (2 ^ 63)) ≡ true =
      lt→ltb _ _ (omega arith) in
    let secs : t.secs % 2 ^ 64 ≡ t.secs = omega arith in
    let carried : t.secs + t.nanos / 1000 * 1000 / 1000000000 ≡ t.secs = omega arith in
    let below : t.nanos / 1000 * 1000 % 1000000000 ≡ t.nanos / 1000 * 1000 = omega arith in
    let micros : t.nanos / 1000 % 2 ^ 32 * 1000 % 2 ^ 32 ≡ t.nanos / 1000 * 1000 = omega arith in
    rw (secs, micros, fits) (ap₂ (λ a b. some (record { secs = a; nanos = b })) carried below)

abbrev packet : ℕ → IpAddress → Option IpAddress → PacketInfo
packet i d s = record { interface_index = i; destination = d; specific_destination = s }

module _ (A : Abi) where
  -- The messages that can be sent and are understood when they arrive, with their numbers in range.
  abbrev pub IsReceivable : IoControlMessageLevel → Type 0
  IsReceivable (IoControlMessageLevel.socket (SocketLevelType.rights fds)) = All A.c_int.IsValue fds
  IsReceivable (IoControlMessageLevel.socket (SocketLevelType.credentials c)) =
      (c.process_id < 2 ^ 32) × A.ucred.IsValue (into_ucred c)
  IsReceivable (IoControlMessageLevel.socket (SocketLevelType.timestamp t)) =
      ((t.secs < 2 ^ 63) × (t.nanos < 1000000000)) × A.timeval.IsValue (timeval_of t)
  IsReceivable (IoControlMessageLevel.socket (SocketLevelType.detailed_timestamp s h)) = ⊥
  IsReceivable (IoControlMessageLevel.ip_v4 (IpV4LevelType.packet_info p)) =
      (p.interface_index < 2 ^ 32)
      × IsV4Pair A p.interface_index p.destination p.specific_destination
  IsReceivable (IoControlMessageLevel.ip_v4 (IpV4LevelType.time_to_live ttl)) = A.c_int.IsValue ttl
  IsReceivable (IoControlMessageLevel.ip_v6 (IpV6LevelType.packet_info p)) =
      IsV6 A p.interface_index p.destination
  IsReceivable (IoControlMessageLevel.ip_v6 (IpV6LevelType.hop_limit hops)) = A.c_int.IsValue hops
  IsReceivable (IoControlMessageLevel.ip_v6 (IpV6LevelType.class_ c)) =
      IsNamed c.differentiated_services_code_point × A.c_int.IsValue (pos (class_into c))
  IsReceivable (IoControlMessageLevel.tls m) = ⊥

  -- A message comes through: prepared, and parsed with whatever lies behind it.
  abbrev pub ComesThrough : IoControlMessageLevel → Type 0
  ComesThrough m =
      (raw : RawControlMessageOut) × (prepare_level A m ≡ ok raw)
      × ((rest : List ℕ) → parse_level A (arrived raw rest) ≡ ok (received m))

  socket_through :
      (m : SocketLevelType)
      → IsReceivable (IoControlMessageLevel.socket m)
      → ComesThrough (IoControlMessageLevel.socket m)
  unfolding prepare_level parse_level and_then prepare_socket parse_socket from_ucred into_ucred
      as_timestamp fill_msg_out_single fill_msg_out_multi
  socket_through (SocketLevelType.rights fds) h = (
    _,
    refl,
    λ rest.
        rw
          (
            A.level_same LevelName.sol_socket LevelName.sol_socket,
            A.socket_same SocketKind.scm_rights SocketKind.scm_rights,
            from_msg_in_multi-arrived A.c_int _ _ fds rest h,
          )
          refl,
  )
  socket_through (SocketLevelType.credentials c) h = (
    _,
    refl,
    λ rest.
        rw
          (
            A.level_same LevelName.sol_socket LevelName.sol_socket,
            A.socket_same SocketKind.scm_credentials SocketKind.scm_rights,
            A.socket_same SocketKind.scm_credentials SocketKind.scm_credentials,
            from_msg_in_single-arrived A.ucred _ _ _ rest h.1,
            as_u32-as_i32 c.process_id h.0,
          )
          refl,
  )
  socket_through (SocketLevelType.timestamp t) h = (
    _,
    refl,
    λ rest.
        rw
          (
            A.level_same LevelName.sol_socket LevelName.sol_socket,
            A.socket_same SocketKind.scm_timestamp SocketKind.scm_rights,
            A.socket_same SocketKind.scm_timestamp SocketKind.scm_credentials,
            A.socket_same SocketKind.scm_timestamp SocketKind.scm_timestamp,
            from_msg_in_single-arrived A.timeval _ _ _ rest h.1,
            timestamp_back t h.0,
          )
          refl,
  )
  socket_through (SocketLevelType.detailed_timestamp s w) h = absurd h

  v4_packet_through :
      (i : ℕ) (d : IpAddress) (s : Option IpAddress)
      → (i < 2 ^ 32) × IsV4Pair A i d s
      → ComesThrough (IoControlMessageLevel.ip_v4 (IpV4LevelType.packet_info (packet i d s)))
  unfolding prepare_level parse_level and_then prepare_ip_v4 parse_ip_v4 v4_message try_into_pktinfo
      v4_pktinfo from_in_pktinfo fill_msg_out_single
  v4_packet_through i (IpAddress.v4 d) (some (IpAddress.v4 s)) (small, (db, sb, v)) = (
    _,
    refl,
    λ rest.
        rw
          (
            A.level_same LevelName.ipproto_ip LevelName.sol_socket,
            A.level_same LevelName.ipproto_ip LevelName.ipproto_ip,
            A.ip_v4_same IpV4Kind.ip_pktinfo IpV4Kind.ip_pktinfo,
            from_msg_in_single-arrived A.in_pktinfo _ _ _ rest v,
            as_u32-as_i32 i small,
            to_be_bytes-from_be_bytes d db,
            to_be_bytes-from_be_bytes s sb,
          )
          refl,
  )
  v4_packet_through i (IpAddress.v4 d) (some (IpAddress.v6 s)) h = absurd h.1
  v4_packet_through i (IpAddress.v4 d) none h = absurd h.1
  v4_packet_through i (IpAddress.v6 d) s h = absurd h.1

  ip_v4_through :
      (m : IpV4LevelType)
      → IsReceivable (IoControlMessageLevel.ip_v4 m)
      → ComesThrough (IoControlMessageLevel.ip_v4 m)
  unfolding prepare_level parse_level and_then prepare_ip_v4 parse_ip_v4 v4_message try_into_pktinfo
      v4_pktinfo from_in_pktinfo fill_msg_out_single
  ip_v4_through (IpV4LevelType.time_to_live ttl) h = (
    _,
    refl,
    λ rest.
        rw
          (
            A.level_same LevelName.ipproto_ip LevelName.sol_socket,
            A.level_same LevelName.ipproto_ip LevelName.ipproto_ip,
            A.ip_v4_same IpV4Kind.ip_ttl IpV4Kind.ip_pktinfo,
            A.ip_v4_same IpV4Kind.ip_ttl IpV4Kind.ip_ttl,
            from_msg_in_single-arrived A.c_int _ _ _ rest h,
          )
          refl,
  )
  ip_v4_through (IpV4LevelType.packet_info p) h =
      v4_packet_through p.interface_index p.destination p.specific_destination h

  v6_packet_through :
      (i : ℕ) (d : IpAddress) (s : Option IpAddress)
      → IsV6 A i d
      → ComesThrough (IoControlMessageLevel.ip_v6 (IpV6LevelType.packet_info (packet i d s)))
  unfolding prepare_level parse_level and_then prepare_ip_v6 parse_ip_v6 v6_message try_into_pktinfo
      from_in6_pktinfo fill_msg_out_single
  v6_packet_through i (IpAddress.v6 d) s h = (
    _,
    refl,
    λ rest.
        rw
          (
            A.level_same LevelName.ipproto_ipv6 LevelName.sol_socket,
            A.level_same LevelName.ipproto_ipv6 LevelName.ipproto_ip,
            A.level_same LevelName.ipproto_ipv6 LevelName.ipproto_ipv6,
            A.ip_v6_same IpV6Kind.ipv6_pktinfo IpV6Kind.ipv6_pktinfo,
            from_msg_in_single-arrived A.in6_pktinfo _ _ _ rest h,
          )
          refl,
  )
  v6_packet_through i (IpAddress.v4 d) s h = absurd h

  ip_v6_through :
      (m : IpV6LevelType)
      → IsReceivable (IoControlMessageLevel.ip_v6 m)
      → ComesThrough (IoControlMessageLevel.ip_v6 m)
  unfolding prepare_level parse_level and_then prepare_ip_v6 parse_ip_v6 v6_message try_into_pktinfo
      from_in6_pktinfo fill_msg_out_single as_u8
  ip_v6_through (IpV6LevelType.hop_limit hops) h = (
    _,
    refl,
    λ rest.
        rw
          (
            A.level_same LevelName.ipproto_ipv6 LevelName.sol_socket,
            A.level_same LevelName.ipproto_ipv6 LevelName.ipproto_ip,
            A.level_same LevelName.ipproto_ipv6 LevelName.ipproto_ipv6,
            A.ip_v6_same IpV6Kind.ipv6_hoplimit IpV6Kind.ipv6_pktinfo,
            A.ip_v6_same IpV6Kind.ipv6_hoplimit IpV6Kind.ipv6_hoplimit,
            from_msg_in_single-arrived A.c_int _ _ _ rest h,
          )
          refl,
  )
  ip_v6_through (IpV6LevelType.class_ c) (h, v) =
      let byte : class_into c % 256 ≡ class_into c = omega (arith, class_from-class_into c h) in
      (
        _,
        refl,
        λ rest.
            rw
              (
                A.level_same LevelName.ipproto_ipv6 LevelName.sol_socket,
                A.level_same LevelName.ipproto_ipv6 LevelName.ipproto_ip,
                A.level_same LevelName.ipproto_ipv6 LevelName.ipproto_ipv6,
                A.ip_v6_same IpV6Kind.ipv6_tclass IpV6Kind.ipv6_pktinfo,
                A.ip_v6_same IpV6Kind.ipv6_tclass IpV6Kind.ipv6_hoplimit,
                A.ip_v6_same IpV6Kind.ipv6_tclass IpV6Kind.ipv6_tclass,
                from_msg_in_single-arrived A.c_int _ _ _ rest v,
                byte,
                (class_from-class_into c h).0,
              )
              refl,
      )
  ip_v6_through (IpV6LevelType.packet_info p) h =
      v6_packet_through p.interface_index p.destination p.specific_destination h

  pub parse_level-prepare_level : (m : IoControlMessageLevel) → IsReceivable m → ComesThrough m
  parse_level-prepare_level (IoControlMessageLevel.socket m) h = socket_through m h
  parse_level-prepare_level (IoControlMessageLevel.ip_v4 m) h = ip_v4_through m h
  parse_level-prepare_level (IoControlMessageLevel.ip_v6 m) h = ip_v6_through m h
  parse_level-prepare_level (IoControlMessageLevel.tls m) h = absurd h

-- The levels fill the interface of a control message.
abbrev pub control_messages : Abi → ControlMessage
control_messages A = record {
  Message = IoControlMessageLevel;
  ParseError = ParseControlMessageError;
  PrepareError = PrepareControlMessageError;
  parse = parse_level A;
  prepare = prepare_level A;
  IsReceivable = IsReceivable A;
  received = received;
  comes_through = parse_level-prepare_level A;
}
