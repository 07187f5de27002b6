-- ===== src/Net/Address/Resolve/Groups.antt =====
-- src/net/address.rs: the addresses that are written in groups are read back.
use cl_async.Base.{
  ℕ, suc, ◌+◌, ◌<◌, ◌≡◌, ◌≢◌, refl, ap, ◌∙◌, ◌==◌, leb, Bool, true, false, if◌then◌else◌, Result,
  ok, List, [], ◌∷◌, ◌++◌, map, All, length, length-append, arith,
}
use cl_async.Net.Address.{IpAddress}
use cl_async.Net.Address.Text.{Text, join, trim, colon, dot, count, includes, starts_with}
use cl_async.Net.Address.Text.Digits.{IsPlain}
use cl_async.Net.Address.Text.Pieces.{
  All-append, Lacks, IsVisible, All-weaken, All-join, trim-IsVisible, count-Lacks, count-join,
}
use cl_async.Net.Address.Text.Search.{
  IsFilled, includes-Lacks, includes-pair_join, includes-pair_gap,
}
use cl_async.Net.Address.Compress.Groups.{
  short, short-IsPlain, short-IsFilled, from_str_radix-short,
}
use cl_async.Net.Address.Compress.Written.{AreWords, All-map, length-map}
use cl_async.Net.Address.Compress.Gap.{ends, zero_words}
use cl_async.Net.Address.Parse.{
  colons, is_v4, is_v6, is_mapped_v6, is_compressed_v6, is_uncompressed_v6, uncompress_v6,
}
use cl_async.Net.Address.Parse.Uncompress.{
  with_gap, All-with_gap, length-with_gap, uncompress_v6-gap,
}
use cl_async.Net.Address.Resolve.{
  try_from, v6, v6_without_brackets, v6_as_bytes, unbracketed, AddrInfo, ResolveHostnamePreferences,
}
use cl_async.Net.Address.Resolve.Bytes.{
  bytes_of, Lacks-colons, uncompressed_v6_as_bytes-join, length-zero_words, zero_words-AreWords,
  as_bytes-hex04,
}

unbracketed-Lacks : (s : Text) → Lacks 91 s → unbracketed (length s) s ≡ s
unfolding unbracketed starts_with
unbracketed-Lacks [] h = refl
unbracketed-Lacks (x ∷ s) h =
    let other : (91 == x) ≡ false = ground (arith, h.0) in rw (other, unbracketed) refl

-- The characters of an address without dots and brackets.
abbrev pub IsClean : ℕ → Type 0
IsClean x = (32 < x) × (x < 128) × (x ≢ dot) × (x ≢ 91)

pub plain-IsClean : (x : ℕ) → IsPlain x → IsClean x
plain-IsClean x h = (omega (arith, h.0), omega (arith, h.1), omega (arith, h.0), h.3)

module _ (little : Bool)
    (getaddrinfo : Text → ResolveHostnamePreferences → Result (List AddrInfo) ℕ) (t : Text)
    (clean : All IsClean t) where
  pub clean-trim : trim t ≡ t
  clean-trim = trim-IsVisible t (All-weaken IsClean IsVisible t (λ x h. (h.0, h.1)) clean)

  clean-dots : Lacks dot t
  clean-dots = All-weaken IsClean (λ x. x ≢ dot) t (λ x h. h.2) clean

  pub clean-is_v4 : is_v4 t ≡ false
  unfolding is_v4
  clean-is_v4 = rw (count-Lacks dot t clean-dots) refl

  pub clean-is_mapped : is_mapped_v6 t ≡ false
  unfolding is_mapped_v6
  clean-is_mapped = ground (arith, includes-Lacks dot t clean-dots)

  clean-brackets : unbracketed (length t) t ≡ t
  clean-brackets = unbracketed-Lacks t (All-weaken IsClean (λ x. x ≢ 91) t (λ x h. h.3) clean)

  try_from-clean :
      is_v6 t ≡ true
      → try_from little getaddrinfo t
        ≡ v6_as_bytes (if is_compressed_v6 t then uncompress_v6 t else ok t)
  unfolding try_from v6 v6_without_brackets
  try_from-clean six = rw (clean-trim, clean-is_v4, six, clean-brackets, clean-is_mapped) refl

-- All groups are written.
module _ (w v : ℕ) (ws : List ℕ) (six : length ws ≡ 6) (h : AreWords (w ∷ v ∷ ws)) where
  full : Text
  full = join colon (map short (w ∷ v ∷ ws))

  full-All : (P : ℕ → Type 0) → ((x : ℕ) → IsPlain x → P x) → P colon → All P full
  unfolding full
  full-All P f at_colon = All-join P colon (map short (w ∷ v ∷ ws)) at_colon (
      All-map (All P) short (w ∷ v ∷ ws)
        (λ u fits. All-weaken IsPlain P (short u) f (short-IsPlain u fits)) h)

  full-count : count colon full ≡ 7
  unfolding full
  full-count =
      count-join colon (short w) (map short (v ∷ ws))
        (Lacks-colons short short-IsPlain from_str_radix-short (w ∷ v ∷ ws) h)
      ∙ omega (arith, length-map short ws)

  full-colons : includes colons full ≡ false
  unfolding full
  full-colons =
      includes-pair_join colon (map short (w ∷ v ∷ ws))
        (Lacks-colons short short-IsPlain from_str_radix-short (w ∷ v ∷ ws) h)
        (All-map IsFilled short (w ∷ v ∷ ws) short-IsFilled h)

  full-is_compressed : is_compressed_v6 full ≡ false
  unfolding is_compressed_v6
  full-is_compressed = rw full-colons refl

  full-is_v6 : is_v6 full ≡ true
  unfolding is_v6 is_uncompressed_v6
  full-is_v6 = rw (full-is_compressed, full-count, full-colons) refl

  module _ (little : Bool)
      (getaddrinfo : Text → ResolveHostnamePreferences → Result (List AddrInfo) ℕ) where
    full-read : try_from little getaddrinfo full ≡ ok (IpAddress.v6 (bytes_of (w ∷ v ∷ ws)))
    unfolding v6_as_bytes
    full-read =
        try_from-clean little getaddrinfo full (full-All IsClean plain-IsClean (omega arith))
          full-is_v6
        ∙ rw full-is_compressed (
            unfold full in
            rw
              (
                uncompressed_v6_as_bytes-join short short-IsPlain from_str_radix-short w (v ∷ ws)
                    (omega arith) h,
                v6_as_bytes,
              )
              refl)

    pub try_from-full :
        try_from little getaddrinfo (join colon (map short (w ∷ v ∷ ws)))
        ≡ ok (IpAddress.v6 (bytes_of (w ∷ v ∷ ws)))
    unfolding full
    try_from-full = full-read

gap_pair :
    (parts others : List Text)
    → includes colons (join colon (ends parts ++ [] ∷ ends others)) ≡ true
gap_pair [] [] = includes-pair_gap colon [] [] [] []
gap_pair [] (q ∷ others) = includes-pair_gap colon [] [] q others
gap_pair (p ∷ parts) [] = includes-pair_gap colon p parts [] []
gap_pair (p ∷ parts) (q ∷ others) = includes-pair_gap colon p parts q others

gap_count :
    (parts others : List Text)
    → All (Lacks colon) (ends parts ++ [] ∷ ends others)
    → count colon (join colon (ends parts ++ [] ∷ ends others)) + 1
      ≡ length (ends parts ++ [] ∷ ends others)
gap_count [] others h = omega (arith, count-join colon [] ([] ∷ ends others) h)
gap_count (p ∷ parts) others h = omega (arith, count-join colon p (parts ++ [] ∷ ends others) h)

-- A run of zeros is left out.
module _ (before behind : List ℕ) (n : ℕ) (some_left_out : 0 < n)
    (eight : length before + suc n + length behind ≡ 8) (h : AreWords before)
    (k : AreWords behind) where
  gapped : Text
  gapped = join colon (with_gap before behind)

  gapped-All : (P : ℕ → Type 0) → ((x : ℕ) → IsPlain x → P x) → P colon → All P gapped
  unfolding gapped
  gapped-All P f at_colon =
      All-join P colon (with_gap before behind) at_colon (All-with_gap P before behind f h k)

  gapped-is_compressed : is_compressed_v6 gapped ≡ true
  unfolding is_compressed_v6
  gapped-is_compressed =
      let few : leb (count colon (join colon (with_gap before behind))) 7 ≡ true = ground (
        arith,
        gap_count (map short before) (map short behind)
            (All-with_gap (λ x. x ≢ colon) before behind (λ x p. p.2) h k),
        length-with_gap before behind n some_left_out eight h k,
      ) in
      unfold gapped in rw (gap_pair (map short before) (map short behind), few) refl

  gapped-is_v6 : is_v6 gapped ≡ true
  unfolding is_v6
  gapped-is_v6 = rw gapped-is_compressed refl

  module _ (little : Bool)
      (getaddrinfo : Text → ResolveHostnamePreferences → Result (List AddrInfo) ℕ) where
    gapped-read :
        try_from little getaddrinfo gapped
        ≡ ok (IpAddress.v6 (bytes_of (before ++ zero_words (suc n) behind)))
    unfolding v6_as_bytes
    gapped-read =
        try_from-clean little getaddrinfo gapped (gapped-All IsClean plain-IsClean (omega arith))
          gapped-is_v6
        ∙ rw gapped-is_compressed (
            unfold gapped in
            ap v6_as_bytes (uncompress_v6-gap before behind n some_left_out eight h k)
            ∙ rw
                (
                  as_bytes-hex04 (before ++ zero_words (suc n) behind)
                      (omega (
                        arith,
                        length-append before (zero_words (suc n) behind),
                        length-zero_words (suc n) behind,
                      ))
                      (All-append (λ w. w < 65536) before (zero_words (suc n) behind) h
                        (zero_words-AreWords (suc n) behind k)),
                  v6_as_bytes,
                )
                refl)

    pub try_from-gapped :
        try_from little getaddrinfo (join colon (with_gap before behind))
        ≡ ok (IpAddress.v6 (bytes_of (before ++ zero_words (suc n) behind)))
    unfolding gapped
    try_from-gapped = gapped-read
