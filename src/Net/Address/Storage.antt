-- ===== src/Net/Address/Storage.antt =====
-- src/net/address.rs: byte orders.
use cl_async.Base.{ℕ, ◌+◌, ◌*◌, ◌/◌, ◌%◌, ◌<◌, ◌≡◌, refl, ap, ◌∙◌, Bool, true, false, ok, arith}
use cl_async.Net.Address.{
  Bytes4, swap16, swap32, from_be_bytes, to_be_bytes, be16, be32, IpAddress, SocketAddress,
  into_storage, try_from,
}

be16-be16 : (little : Bool) (x : ℕ) → x < 65536 → be16 little (be16 little x) ≡ x
unfolding be16 swap16
be16-be16 true x h = omega arith
be16-be16 false x h = refl

-- The bytes of a `u8` array.
abbrev pub AreBytes : Bytes4 → Type 0
AreBytes b = (b.b0 < 256) × (b.b1 < 256) × (b.b2 < 256) × (b.b3 < 256)

swap32-digits :
    (a b c d : ℕ)
    → a < 256
    → b < 256
    → c < 256
    → d < 256
    → swap32 (a * 16777216 + b * 65536 + c * 256 + d) ≡ d * 16777216 + c * 65536 + b * 256 + a
unfolding swap32
swap32-digits a b c d ha hb hc hd = omega arith

be32-be32 :
    (little : Bool) (b : Bytes4)
    → AreBytes b
    → be32 little (be32 little (from_be_bytes b)) ≡ from_be_bytes b
unfolding be32 from_be_bytes
be32-be32 true b h =
    ap swap32 (swap32-digits b.b0 b.b1 b.b2 b.b3 h.0 h.1 h.2 h.3)
    ∙ swap32-digits b.b3 b.b2 b.b1 b.b0 h.3 h.2 h.1 h.0
be32-be32 false b h = refl

four : ℕ → ℕ → ℕ → ℕ → Bytes4
four a b c d = record { b0 = a; b1 = b; b2 = c; b3 = d }

pub to_be_bytes-from_be_bytes : (b : Bytes4) → AreBytes b → to_be_bytes (from_be_bytes b) ≡ b
unfolding to_be_bytes from_be_bytes four
to_be_bytes-from_be_bytes b h =
    let x = from_be_bytes b in
    let e0 : x / 16777216 ≡ b.b0 = omega (arith, h.0, h.1, h.2, h.3) in
    let e1 : x / 65536 % 256 ≡ b.b1 = omega (arith, h.0, h.1, h.2, h.3) in
    let e2 : x / 256 % 256 ≡ b.b2 = omega (arith, h.0, h.1, h.2, h.3) in
    let e3 : x % 256 ≡ b.b3 = omega (arith, h.0, h.1, h.2, h.3) in
    ap (λ a. four a (x / 65536 % 256) (x / 256 % 256) (x % 256)) e0
    ∙ ap (λ a. four b.b0 a (x / 256 % 256) (x % 256)) e1
    ∙ ap (λ a. four b.b0 b.b1 a (x % 256)) e2
    ∙ ap (λ a. four b.b0 b.b1 b.b2 a) e3

-- What makes a V4 address well-formed; the bytes of a V6 address are copied.
abbrev pub IsAddress : IpAddress → Type 0
IsAddress (IpAddress.v4 b) = AreBytes b
IsAddress (IpAddress.v6 bytes) = Unit

address_of : IpAddress → ℕ → SocketAddress
address_of ip port = record { ip = ip; port = port }

-- On a host of either byte order, a socket address whose port fits 16 bits and whose V4 bytes fit 8 bits
-- survives the way into a `sockaddr_storage` and back.
pub try_from-into_storage :
    (little : Bool) (a : SocketAddress)
    → a.port < 65536
    → IsAddress a.ip
    → try_from little (into_storage little a) ≡ ok a
unfolding try_from into_storage address_of
try_from-into_storage little a h fit = by_ip a.ip a.port h fit
  where
    by_ip :
        (ip : IpAddress) (port : ℕ)
        → port < 65536
        → IsAddress ip
        → try_from little (into_storage little (record { ip = ip; port = port }))
          ≡ ok (record { ip = ip; port = port })
    by_ip (IpAddress.v4 b) port h fit =
        ap (λ x. ok (address_of (IpAddress.v4 (to_be_bytes x)) (be16 little (be16 little port))))
          (be32-be32 little b fit)
        ∙ ap (λ c. ok (address_of (IpAddress.v4 c) (be16 little (be16 little port))))
            (to_be_bytes-from_be_bytes b fit)
        ∙ ap (λ q. ok (address_of (IpAddress.v4 b) q)) (be16-be16 little port h)
    by_ip (IpAddress.v6 bytes) port h fit =
        ap (λ q. ok (address_of (IpAddress.v6 bytes) q)) (be16-be16 little port h)
