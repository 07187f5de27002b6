-- ===== src/Net/Address/Resolve/Dotted.antt =====
-- src/net/address.rs: the addresses that are written with dots are read back.
use cl_async.Base.{
  ℕ, ◌<◌, ◌≡◌, ◌≢◌, refl, Bool, true, false, Result, ok, List, [], ◌∷◌, ◌++◌, map, All, length,
  arith,
}
use cl_async.Net.Address.{IpAddress}
use cl_async.Net.Address.Text.{Text, trim, join, count, starts_with, includes, dot, colon, decimal}
use cl_async.Net.Address.Text.Digits.{IsPlain, decimal-IsPlain, from_str_radix-decimal}
use cl_async.Net.Address.Text.Pieces.{
  Lacks, IsVisible, split-join, count-join, trim-IsVisible, All-join, All-weaken,
}
use cl_async.Net.Address.Text.Search.{includes-Lacks, includes-append}
use cl_async.Net.Address.Display.{dotted, mapped_prefix}
use cl_async.Net.Address.Parse.{
  parse_parts, v4_bytes_from_str, bytes4, is_v4, v4_from_str, is_mapped_v6, is_v6, parse_mapped_v6,
  zeros_and_mark,
}
use cl_async.Net.Address.Resolve.{
  try_from, v4, v6, v6_without_brackets, unbracketed, AddrInfo, ResolveHostnamePreferences,
}

-- The bytes of a `u8` array.
abbrev pub AreBytes : List ℕ → Type 0
AreBytes = All (λ b. b < 256)

decimals-ArePlain : (bytes : List ℕ) → AreBytes bytes → All (All IsPlain) (map decimal bytes)
decimals-ArePlain [] h = tt
decimals-ArePlain (b ∷ bytes) h = (decimal-IsPlain b h.0, decimals-ArePlain bytes h.1)

parts-weaken :
    (Q : ℕ → Type 0) (parts : List Text)
    → ((x : ℕ) → IsPlain x → Q x)
    → All (All IsPlain) parts
    → All (All Q) parts
parts-weaken Q [] f h = tt
parts-weaken Q (part ∷ parts) f h = (All-weaken IsPlain Q part f h.0, parts-weaken Q parts f h.1)

parse_parts-decimals :
    (bytes : List ℕ) → AreBytes bytes → parse_parts (map decimal bytes) ≡ ok bytes
unfolding parse_parts
parse_parts-decimals [] h = refl
parse_parts-decimals (b ∷ bytes) h =
    rw (from_str_radix-decimal b h.0, parse_parts, parse_parts-decimals bytes h.1, parse_parts) refl

module _ (a b c d : ℕ) (small : AreBytes (a ∷ b ∷ c ∷ d ∷ [])) where
  plain : All (All IsPlain) (map decimal (a ∷ b ∷ c ∷ d ∷ []))
  plain = decimals-ArePlain (a ∷ b ∷ c ∷ d ∷ []) small

  undotted : All (Lacks dot) (map decimal (a ∷ b ∷ c ∷ d ∷ []))
  undotted =
      parts-weaken (λ x. x ≢ dot) (map decimal (a ∷ b ∷ c ∷ d ∷ [])) (λ x h. omega (arith, h.0))
        plain

  v4_bytes_from_str-dotted :
      v4_bytes_from_str (dotted (a ∷ b ∷ c ∷ d ∷ [])) ≡ ok (a ∷ b ∷ c ∷ d ∷ [])
  unfolding v4_bytes_from_str dotted
  v4_bytes_from_str-dotted =
      rw (split-join dot (decimal a) (decimal b ∷ decimal c ∷ decimal d ∷ []) undotted)
        (parse_parts-decimals (a ∷ b ∷ c ∷ d ∷ []) small)

  dotted-count : count dot (dotted (a ∷ b ∷ c ∷ d ∷ [])) ≡ 3
  unfolding dotted
  dotted-count = count-join dot (decimal a) (decimal b ∷ decimal c ∷ decimal d ∷ []) undotted

  dotted-IsVisible : All IsVisible (dotted (a ∷ b ∷ c ∷ d ∷ []))
  unfolding dotted
  dotted-IsVisible = All-join IsVisible dot (map decimal (a ∷ b ∷ c ∷ d ∷ [])) (omega arith) (
      parts-weaken IsVisible (map decimal (a ∷ b ∷ c ∷ d ∷ []))
        (λ x h. (omega (arith, h.0), omega (arith, h.1))) plain)

  dotted-colons : includes (colon ∷ []) (dotted (a ∷ b ∷ c ∷ d ∷ [])) ≡ false
  unfolding dotted
  dotted-colons = includes-Lacks colon (dotted (a ∷ b ∷ c ∷ d ∷ [])) (
      All-join (λ x. x ≢ colon) dot (map decimal (a ∷ b ∷ c ∷ d ∷ [])) (omega arith)
        (parts-weaken (λ x. x ≢ colon) (map decimal (a ∷ b ∷ c ∷ d ∷ [])) (λ x h. h.2) plain))

  dotted-dots : includes (dot ∷ []) (dotted (a ∷ b ∷ c ∷ d ∷ [])) ≡ true
  unfolding dotted join
  dotted-dots = includes-append dot (decimal a) (join dot (map decimal (b ∷ c ∷ d ∷ [])))

  v4-dotted :
      v4 (dotted (a ∷ b ∷ c ∷ d ∷ []))
      ≡ ok (IpAddress.v4 (record { b0 = a; b1 = b; b2 = c; b3 = d }))
  unfolding v4 v4_from_str bytes4
  v4-dotted = rw (v4_bytes_from_str-dotted, v4_from_str, v4) refl

  is_v4-dotted : is_v4 (dotted (a ∷ b ∷ c ∷ d ∷ [])) ≡ true
  unfolding is_v4
  is_v4-dotted = rw (dotted-count, dotted-colons) refl

  mapped : Text
  mapped = mapped_prefix ++ dotted (a ∷ b ∷ c ∷ d ∷ [])

  mapped-trim : trim mapped ≡ mapped
  unfolding mapped
  mapped-trim =
      let v : IsVisible 58 = omega arith in
      let f : IsVisible 102 = omega arith in
      trim-IsVisible mapped (v, (v, (f, (f, (f, (f, (v, dotted-IsVisible)))))))

  mapped-is_v4 : is_v4 mapped ≡ false
  unfolding is_v4 mapped includes
  mapped-is_v4 = ground arith

  mapped-is_mapped : is_mapped_v6 mapped ≡ true
  unfolding is_mapped_v6 mapped includes starts_with
  mapped-is_mapped = rw dotted-dots refl

  mapped-is_v6 : is_v6 mapped ≡ true
  unfolding is_v6
  mapped-is_v6 = ground (arith, mapped-is_mapped)

  mapped-brackets : unbracketed (length mapped) mapped ≡ mapped
  unfolding unbracketed mapped starts_with
  mapped-brackets = refl

  mapped-parsed : parse_mapped_v6 mapped ≡ ok (IpAddress.v6 (zeros_and_mark ++ a ∷ b ∷ c ∷ d ∷ []))
  unfolding parse_mapped_v6 mapped starts_with
  mapped-parsed = rw (v4_bytes_from_str-dotted, parse_mapped_v6) refl

  module _ (little : Bool)
      (getaddrinfo : Text → ResolveHostnamePreferences → Result (List AddrInfo) ℕ) where
    pub try_from-dotted :
        try_from little getaddrinfo (dotted (a ∷ b ∷ c ∷ d ∷ []))
        ≡ ok (IpAddress.v4 (record { b0 = a; b1 = b; b2 = c; b3 = d }))
    unfolding try_from
    try_from-dotted =
        rw (trim-IsVisible (dotted (a ∷ b ∷ c ∷ d ∷ [])) dotted-IsVisible, is_v4-dotted) v4-dotted

    mapped-read :
        try_from little getaddrinfo mapped
        ≡ ok (IpAddress.v6 (zeros_and_mark ++ a ∷ b ∷ c ∷ d ∷ []))
    unfolding try_from v6
    mapped-read =
        rw (mapped-trim, mapped-is_v4, mapped-is_v6, mapped-brackets)
          (rw (mapped-is_mapped, v6_without_brackets, mapped-parsed) refl)

    pub try_from-mapped :
        try_from little getaddrinfo (mapped_prefix ++ dotted (a ∷ b ∷ c ∷ d ∷ []))
        ≡ ok (IpAddress.v6 (zeros_and_mark ++ a ∷ b ∷ c ∷ d ∷ []))
    unfolding mapped
    try_from-mapped = mapped-read
