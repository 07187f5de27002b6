-- ===== src/Net/Address/Display.antt =====
-- src/net/address.rs: `Display` of an `IpAddress`.
use cl_async.Base.{
  ℕ, zero, suc, ◌+◌, ◌*◌, ◌==◌, ◌≡◌, refl, Bool, false, ◌&&◌, if◌then◌else◌, Result, ok, err, List,
  [], ◌∷◌, ◌++◌, map, drop,
}
use cl_async.Net.Address.{Bytes4, IpAddress}
use cl_async.Net.Address.Text.{Text, colon, dot, join, hex04, decimal}
use cl_async.Net.Address.Compress.{compress_v6}

-- "::ffff:".
abbrev pub mapped_prefix : Text
mapped_prefix = 58 ∷ 58 ∷ 102 ∷ 102 ∷ 102 ∷ 102 ∷ 58 ∷ []

-- `u16::from_be_bytes` of each pair of bytes.
unfoldable pub words : List ℕ → List ℕ
words (a ∷ b ∷ bytes) = (a * 256 + b) ∷ words bytes
words bytes = []

unfoldable pub bytes_as_uncompressed_v6 : List ℕ → Text
unfolding words
bytes_as_uncompressed_v6 bytes = join colon (map hex04 (words bytes))

unfoldable pub zeros_then_mark : ℕ → List ℕ → Bool
zeros_then_mark (suc n) (b ∷ bytes) = b == 0 && zeros_then_mark n bytes
zeros_then_mark zero (b ∷ c ∷ bytes) = b == 255 && c == 255
zeros_then_mark n bytes = false

unfoldable pub is_v4_mapped_v6 : IpAddress → Bool
unfolding zeros_then_mark
is_v4_mapped_v6 (IpAddress.v4 bytes) = false
is_v4_mapped_v6 (IpAddress.v6 bytes) = zeros_then_mark 10 bytes

-- `write!` of bytes with dots between them.
unfoldable pub dotted : List ℕ → Text
dotted bytes = join dot (map decimal bytes)

unfoldable pub unwrap_or {ℓ} : {E : Type ℓ} → Result Text E → Text → Text
unwrap_or (ok s) other = s
unwrap_or (err e) other = other

unfoldable pub fmt_v6 : List ℕ → Text
unfolding unwrap_or compress_v6 bytes_as_uncompressed_v6
fmt_v6 bytes =
    let uncompressed = bytes_as_uncompressed_v6 bytes in
    unwrap_or (compress_v6 uncompressed) uncompressed

unfoldable pub fmt : IpAddress → Text
unfolding dotted fmt_v6 zeros_then_mark
fmt (IpAddress.v4 a) = dotted (a.b0 ∷ a.b1 ∷ a.b2 ∷ a.b3 ∷ [])
fmt (IpAddress.v6 bytes) =
    if zeros_then_mark 10 bytes then mapped_prefix ++ dotted (drop 12 bytes) else fmt_v6 bytes

-- `to_be_bytes` of an address, and `version`.
unfoldable pub to_be_bytes : IpAddress → List ℕ
to_be_bytes (IpAddress.v4 a) =
    0 ∷ 0 ∷ 0 ∷ 0 ∷ 0 ∷ 0 ∷ 0 ∷ 0 ∷ 0 ∷ 0 ∷ 255 ∷ 255 ∷ a.b0 ∷ a.b1 ∷ a.b2 ∷ a.b3 ∷ []
to_be_bytes (IpAddress.v6 bytes) = bytes

-- The sixteen bytes of a V4 address are those of the mapped address, which is written with the same dots.
pub fmt-to_be_bytes :
    (a : Bytes4)
    → fmt (IpAddress.v6 (to_be_bytes (IpAddress.v4 a))) ≡ mapped_prefix ++ fmt (IpAddress.v4 a)
unfolding fmt to_be_bytes
fmt-to_be_bytes a = refl
