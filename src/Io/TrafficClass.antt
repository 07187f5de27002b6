-- ===== src/Io/TrafficClass.antt =====
-- src/io/message.rs: the traffic class of IPv6, a byte of two fields.
use cl_async.Base.{ℕ, ◌+◌, ◌*◌, ◌/◌, ◌%◌, ◌==◌, if◌then◌else◌, List, [], ◌∷◌}
pub mod RoundTrip

pub data IpV6Ecn : Type 0 where
  not_ect ect0 ect1 ce : IpV6Ecn

pub data IpV6Dscp : Type 0 where
  default class_selector1 class_selector2 class_selector3 : IpV6Dscp
  class_selector4 class_selector5 class_selector6 class_selector7 : IpV6Dscp
  expedited_forwarding assured_forwarding11 assured_forwarding12 assured_forwarding13 : IpV6Dscp
  assured_forwarding21 assured_forwarding22 assured_forwarding23 assured_forwarding31 : IpV6Dscp
  assured_forwarding32 assured_forwarding33 assured_forwarding41 assured_forwarding42 : IpV6Dscp
  assured_forwarding43 : IpV6Dscp
  other : ℕ → IpV6Dscp

pub record IpV6TrafficClass : Type 0 where
  pub explicit_congestion_notification : IpV6Ecn
  pub differentiated_services_code_point : IpV6Dscp

-- The match on `byte & 0b11`.
unfoldable pub ecn_of : ℕ → IpV6Ecn
ecn_of raw =
    if raw == 0
    then IpV6Ecn.not_ect
    else if raw == 1
    then IpV6Ecn.ect1
    else if raw == 2
    then IpV6Ecn.ect0
    else IpV6Ecn.ce

-- The arms of the match on `(byte & 0b11111100) >> 2`; the default is not among them.
unfoldable pub dscp_arms : List (ℕ × IpV6Dscp)
dscp_arms =
    (0, IpV6Dscp.default)
    ∷ (8, IpV6Dscp.class_selector1)
    ∷ (16, IpV6Dscp.class_selector2)
    ∷ (24, IpV6Dscp.class_selector3)
    ∷ (32, IpV6Dscp.class_selector4)
    ∷ (40, IpV6Dscp.class_selector5)
    ∷ (48, IpV6Dscp.class_selector6)
    ∷ (56, IpV6Dscp.class_selector7)
    ∷ (46, IpV6Dscp.expedited_forwarding)
    ∷ (10, IpV6Dscp.assured_forwarding11)
    ∷ (12, IpV6Dscp.assured_forwarding12)
    ∷ (14, IpV6Dscp.assured_forwarding13)
    ∷ (18, IpV6Dscp.assured_forwarding21)
    ∷ (20, IpV6Dscp.assured_forwarding22)
    ∷ (22, IpV6Dscp.assured_forwarding23)
    ∷ (26, IpV6Dscp.assured_forwarding31)
    ∷ (28, IpV6Dscp.assured_forwarding32)
    ∷ (30, IpV6Dscp.assured_forwarding33)
    ∷ (34, IpV6Dscp.assured_forwarding41)
    ∷ (36, IpV6Dscp.assured_forwarding42)
    ∷ (38, IpV6Dscp.assured_forwarding43)
    ∷ []

unfoldable pub dscp_of : ℕ → List (ℕ × IpV6Dscp) → IpV6Dscp
dscp_of raw [] = IpV6Dscp.other raw
dscp_of raw ((b, d) ∷ rest) = if raw == b then d else dscp_of raw rest

-- `From<u8> for IpV6TrafficClass`.
unfoldable pub class_from : ℕ → IpV6TrafficClass
unfolding ecn_of dscp_of dscp_arms
class_from byte = record {
  explicit_congestion_notification = ecn_of (byte % 4);
  differentiated_services_code_point = dscp_of (byte / 4) dscp_arms;
}

unfoldable pub ecn_bits : IpV6Ecn → ℕ
ecn_bits IpV6Ecn.not_ect = 0
ecn_bits IpV6Ecn.ect0 = 2
ecn_bits IpV6Ecn.ect1 = 1
ecn_bits IpV6Ecn.ce = 3

unfoldable pub dscp_bits : IpV6Dscp → ℕ
dscp_bits IpV6Dscp.default = 0
dscp_bits IpV6Dscp.class_selector1 = 8
dscp_bits IpV6Dscp.class_selector2 = 16
dscp_bits IpV6Dscp.class_selector3 = 24
dscp_bits IpV6Dscp.class_selector4 = 32
dscp_bits IpV6Dscp.class_selector5 = 40
dscp_bits IpV6Dscp.class_selector6 = 48
dscp_bits IpV6Dscp.class_selector7 = 56
dscp_bits IpV6Dscp.expedited_forwarding = 46
dscp_bits IpV6Dscp.assured_forwarding11 = 10
dscp_bits IpV6Dscp.assured_forwarding12 = 12
dscp_bits IpV6Dscp.assured_forwarding13 = 14
dscp_bits IpV6Dscp.assured_forwarding21 = 18
dscp_bits IpV6Dscp.assured_forwarding22 = 20
dscp_bits IpV6Dscp.assured_forwarding23 = 22
dscp_bits IpV6Dscp.assured_forwarding31 = 26
dscp_bits IpV6Dscp.assured_forwarding32 = 28
dscp_bits IpV6Dscp.assured_forwarding33 = 30
dscp_bits IpV6Dscp.assured_forwarding41 = 34
dscp_bits IpV6Dscp.assured_forwarding42 = 36
dscp_bits IpV6Dscp.assured_forwarding43 = 38
dscp_bits (IpV6Dscp.other value) = value

-- `Into<u8> for IpV6TrafficClass`: `(dscp << 2) | ecn` in a byte, where the shift drops the high bits.
unfoldable pub class_into : IpV6TrafficClass → ℕ
unfolding ecn_bits dscp_bits
class_into c =
    dscp_bits c.differentiated_services_code_point * 4 % 256
    + ecn_bits c.explicit_congestion_notification
