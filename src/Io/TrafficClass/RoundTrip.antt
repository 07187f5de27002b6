-- ===== src/Io/TrafficClass/RoundTrip.antt =====
-- src/io/message.rs: the traffic class and its byte.
use cl_async.Base.{
  ℕ, ◌+◌, ◌*◌, ◌/◌, ◌%◌, ◌<◌, ◌≡◌, refl, sym, ap, ◌∙◌, inl, inr, ◌==◌, ==_iff, Bool-cases, List, [],
  ◌∷◌, All, arith,
}
use cl_async.Io.TrafficClass.{
  IpV6Ecn, IpV6Dscp, IpV6TrafficClass, ecn_of, dscp_arms, dscp_of, class_from, ecn_bits, dscp_bits,
  class_into,
}

abbrev IsUndone : ℕ × IpV6Dscp → Type 0
IsUndone (b, d) = dscp_bits d ≡ b

dscp_bits-dscp_of :
    (raw : ℕ) (rows : List (ℕ × IpV6Dscp)) → All IsUndone rows → dscp_bits (dscp_of raw rows) ≡ raw
unfolding dscp_of dscp_bits
dscp_bits-dscp_of raw [] all = refl
dscp_bits-dscp_of raw ((b, d) ∷ rest) all = elim (Bool-cases (raw == b)) [
  | inl hit ↦ rw hit (all.0 ∙ sym ((==_iff raw b).0 hit))
  | inr miss ↦ rw miss (dscp_bits-dscp_of raw rest all.1)
]

dscp_arms-IsUndone : All IsUndone dscp_arms
unfolding dscp_arms dscp_bits
dscp_arms-IsUndone = (
  refl,
  (
    refl,
    (
      refl,
      (
        refl,
        (
          refl,
          (
            refl,
            (
              refl,
              (
                refl,
                (
                  refl,
                  (
                    refl,
                    (
                      refl,
                      (
                        refl,
                        (refl, (refl, (refl, (refl, (refl, (refl, (refl, (refl, (refl, tt))))))))),
                      ),
                    ),
                  ),
                ),
              ),
            ),
          ),
        ),
      ),
    ),
  ),
)

ecn_bits-ecn_of : (raw : ℕ) → raw < 4 → ecn_bits (ecn_of raw) ≡ raw
unfolding ecn_of ecn_bits
ecn_bits-ecn_of raw h = ground arith

-- Every byte is the traffic class that is read from it.
class_into-class_from : (byte : ℕ) → byte < 256 → class_into (class_from byte) ≡ byte
unfolding class_into class_from
class_into-class_from byte h = omega (
  arith,
  dscp_bits-dscp_of (byte / 4) dscp_arms dscp_arms-IsUndone,
  ecn_bits-ecn_of (byte % 4) (omega arith),
)

-- The code points that have a name.
abbrev pub IsNamed : IpV6Dscp → Type 0
IsNamed (IpV6Dscp.other value) = ⊥
IsNamed d = Unit

dscp_back : (d : IpV6Dscp) → IsNamed d → dscp_of (dscp_bits d) dscp_arms ≡ d
unfolding dscp_of dscp_bits dscp_arms
dscp_back IpV6Dscp.default h = refl
dscp_back IpV6Dscp.class_selector1 h = refl
dscp_back IpV6Dscp.class_selector2 h = refl
dscp_back IpV6Dscp.class_selector3 h = refl
dscp_back IpV6Dscp.class_selector4 h = refl
dscp_back IpV6Dscp.class_selector5 h = refl
dscp_back IpV6Dscp.class_selector6 h = refl
dscp_back IpV6Dscp.class_selector7 h = refl
dscp_back IpV6Dscp.expedited_forwarding h = refl
dscp_back IpV6Dscp.assured_forwarding11 h = refl
dscp_back IpV6Dscp.assured_forwarding12 h = refl
dscp_back IpV6Dscp.assured_forwarding13 h = refl
dscp_back IpV6Dscp.assured_forwarding21 h = refl
dscp_back IpV6Dscp.assured_forwarding22 h = refl
dscp_back IpV6Dscp.assured_forwarding23 h = refl
dscp_back IpV6Dscp.assured_forwarding31 h = refl
dscp_back IpV6Dscp.assured_forwarding32 h = refl
dscp_back IpV6Dscp.assured_forwarding33 h = refl
dscp_back IpV6Dscp.assured_forwarding41 h = refl
dscp_back IpV6Dscp.assured_forwarding42 h = refl
dscp_back IpV6Dscp.assured_forwarding43 h = refl
dscp_back (IpV6Dscp.other value) h = absurd h

dscp_bits-lt : (d : IpV6Dscp) → IsNamed d → dscp_bits d < 64
unfolding dscp_bits
dscp_bits-lt IpV6Dscp.default h = omega arith
dscp_bits-lt IpV6Dscp.class_selector1 h = omega arith
dscp_bits-lt IpV6Dscp.class_selector2 h = omega arith
dscp_bits-lt IpV6Dscp.class_selector3 h = omega arith
dscp_bits-lt IpV6Dscp.class_selector4 h = omega arith
dscp_bits-lt IpV6Dscp.class_selector5 h = omega arith
dscp_bits-lt IpV6Dscp.class_selector6 h = omega arith
dscp_bits-lt IpV6Dscp.class_selector7 h = omega arith
dscp_bits-lt IpV6Dscp.expedited_forwarding h = omega arith
dscp_bits-lt IpV6Dscp.assured_forwarding11 h = omega arith
dscp_bits-lt IpV6Dscp.assured_forwarding12 h = omega arith
dscp_bits-lt IpV6Dscp.assured_forwarding13 h = omega arith
dscp_bits-lt IpV6Dscp.assured_forwarding21 h = omega arith
dscp_bits-lt IpV6Dscp.assured_forwarding22 h = omega arith
dscp_bits-lt IpV6Dscp.assured_forwarding23 h = omega arith
dscp_bits-lt IpV6Dscp.assured_forwarding31 h = omega arith
dscp_bits-lt IpV6Dscp.assured_forwarding32 h = omega arith
dscp_bits-lt IpV6Dscp.assured_forwarding33 h = omega arith
dscp_bits-lt IpV6Dscp.assured_forwarding41 h = omega arith
dscp_bits-lt IpV6Dscp.assured_forwarding42 h = omega arith
dscp_bits-lt IpV6Dscp.assured_forwarding43 h = omega arith
dscp_bits-lt (IpV6Dscp.other value) h = absurd h

ecn_back : (e : IpV6Ecn) → (ecn_of (ecn_bits e) ≡ e) × (ecn_bits e < 4)
unfolding ecn_of ecn_bits
ecn_back IpV6Ecn.not_ect = (refl, omega arith)
ecn_back IpV6Ecn.ect0 = (refl, omega arith)
ecn_back IpV6Ecn.ect1 = (refl, omega arith)
ecn_back IpV6Ecn.ce = (refl, omega arith)

class_of : IpV6Ecn → IpV6Dscp → IpV6TrafficClass
class_of e d = record {
  explicit_congestion_notification = e;
  differentiated_services_code_point = d;
}

-- A class whose code point has a name fits a byte, and is read back from it.
pub class_from-class_into :
    (c : IpV6TrafficClass)
    → IsNamed c.differentiated_services_code_point
    → (class_from (class_into c) ≡ c) × (class_into c < 256)
unfolding class_from class_into class_of
class_from-class_into c h =
    let e = c.explicit_congestion_notification in
    let d = c.differentiated_services_code_point in
    let small = dscp_bits-lt d h in
    let (ecn, low) = ecn_back e in
    let byte = dscp_bits d * 4 % 256 + ecn_bits e in
    let e1 : byte % 4 ≡ ecn_bits e = omega (arith, small, low) in
    let e2 : byte / 4 ≡ dscp_bits d = omega (arith, small, low) in
    (
      ap (λ x. class_of (ecn_of x) (dscp_of (byte / 4) dscp_arms)) e1
          ∙ ap (λ x. class_of x (dscp_of (byte / 4) dscp_arms)) ecn
          ∙ ap (λ x. class_of e (dscp_of x dscp_arms)) e2
          ∙ ap (λ x. class_of e x) (dscp_back d h),
      omega (arith, small, low),
    )
