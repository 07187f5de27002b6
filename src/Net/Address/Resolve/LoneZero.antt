-- ===== src/Net/Address/Resolve/LoneZero.antt =====
-- src/net/address.rs: an address whose first word is a lone zero is written with one colon too many, and is
-- not read back.
use cl_async.Base.{
  ℕ, zero, suc, ◌≡◌, refl, sym, ap, ◌∙◌, Bool, true, false, inl, inr, Bool-cases, Result, ok, List,
  [], ◌∷◌, map, All, length, arith,
}
use cl_async.Net.Address.{IpAddress}
use cl_async.Net.Address.Text.{Text, join, colon, hex04, digit, count, includes}
use cl_async.Net.Address.Text.Digits.{IsPlain}
use cl_async.Net.Address.Text.Pieces.{Lacks, All-join, All-weaken, count-join}
use cl_async.Net.Address.Text.Search.{IsFilled, includes-pair_join, includes-pair_next}
use cl_async.Net.Address.Compress.{compress_v6, is_zero, without_zeros}
use cl_async.Net.Address.Compress.Runs.{longest, compressed-lone_zero}
use cl_async.Net.Address.Compress.Groups.{
  short, short-IsPlain, short-IsFilled, is_zero-short, from_str_radix-short,
}
use cl_async.Net.Address.Compress.Written.{
  AreWords, All-map, zeros, length-map, compress_v6-compressed, has_empty-short, is_zero-shorts,
}
use cl_async.Net.Address.Display.{
  words, fmt, fmt_v6, unwrap_or, zeros_then_mark, bytes_as_uncompressed_v6,
}
use cl_async.Net.Address.Parse.{colons, is_v6, is_compressed_v6, is_uncompressed_v6}
use cl_async.Net.Address.Resolve.{try_from, first_resolved, AddrInfo, ResolveHostnamePreferences}
use cl_async.Net.Address.Resolve.Dotted.{AreBytes}
use cl_async.Net.Address.Resolve.Groups.{
  IsClean, plain-IsClean, clean-trim, clean-is_v4, clean-is_mapped,
}
use cl_async.Net.Address.Resolve.Bytes.{bytes_of-words, Lacks-colons}
use cl_async.Net.Address.Resolve.RoundTrip.{written, mapped-bytes}

module _ (v : ℕ) (ws : List ℕ) (six : length ws ≡ 6) (h : AreWords (0 ∷ v ∷ ws)) where
  groups : Text
  groups = join colon (map short (0 ∷ v ∷ ws))

  text : Text
  text = colon ∷ groups

  written-lone_zero : longest (zeros (0 ∷ v ∷ ws)) ≡ 1 → written (0 ∷ v ∷ ws) ≡ text
  unfolding written text groups unwrap_or
  written-lone_zero alone =
      let first : is_zero (short 0) ≡ true = is_zero-short 0 h.0 in
      let one : longest (map is_zero (map short (0 ∷ v ∷ ws))) ≡ 1 =
        ap longest (is_zero-shorts (0 ∷ v ∷ ws) h) ∙ alone in
      let e : compress_v6 (join colon (map hex04 (0 ∷ v ∷ ws)))
          ≡ ok (58 ∷ join 58 (map short (0 ∷ v ∷ ws))) =
        compress_v6-compressed 0 (v ∷ ws) (omega arith) h
        ∙ compressed-lone_zero (short 0) (short v) (map short ws) (has_empty-short (0 ∷ v ∷ ws) h)
            first one in
      rw e refl

  lacks : All (Lacks colon) (map short (0 ∷ v ∷ ws))
  lacks = Lacks-colons short short-IsPlain from_str_radix-short (0 ∷ v ∷ ws) h

  text-IsClean : All IsClean text
  unfolding text groups
  text-IsClean =
      let at_colon : IsClean colon = omega arith in
      (
        at_colon,
        All-join IsClean colon (map short (0 ∷ v ∷ ws)) at_colon (
            All-map (All IsClean) short (0 ∷ v ∷ ws)
              (λ u fits. All-weaken IsPlain IsClean (short u) plain-IsClean (short-IsPlain u fits))
              h),
      )

  text-colons : count colon text ≡ 8
  unfolding text groups count
  text-colons =
      let seven : count colon (join colon (map short (0 ∷ v ∷ ws))) ≡ 7 =
        count-join colon (short 0) (map short (v ∷ ws)) lacks
        ∙ omega (arith, length-map short ws) in
      omega (arith, seven)

  text-pair : includes colons text ≡ false
  unfolding text groups join short without_zeros hex04 digit
  text-pair =
      includes-pair_next colon [] 48 (colon ∷ join colon (map short (v ∷ ws))) tt (omega arith)
      ∙ includes-pair_join colon (map short (0 ∷ v ∷ ws)) lacks
          (All-map IsFilled short (0 ∷ v ∷ ws) short-IsFilled h)

  module _ (little : Bool)
      (getaddrinfo : Text → ResolveHostnamePreferences → Result (List AddrInfo) ℕ) where
    text-is_v6 : is_v6 text ≡ false
    unfolding is_v6 is_compressed_v6 is_uncompressed_v6
    text-is_v6 =
        rw (text-pair, text-colons, clean-is_mapped little getaddrinfo text text-IsClean) refl

    text-resolved : try_from little getaddrinfo text ≡ first_resolved little getaddrinfo text
    unfolding try_from
    text-resolved =
        rw
          (
            clean-trim little getaddrinfo text text-IsClean,
            clean-is_v4 little getaddrinfo text text-IsClean,
            text-is_v6,
          )
          refl

module _ (little : Bool)
    (getaddrinfo : Text → ResolveHostnamePreferences → Result (List AddrInfo) ℕ) where
  by_words :
      (w : ℕ) (ws : List ℕ)
      → length (w ∷ ws) ≡ 8
      → AreWords (w ∷ ws)
      → w ≡ 0
      → longest (zeros (w ∷ ws)) ≡ 1
      → (written (w ∷ ws) ≡ colon ∷ join colon (map short (w ∷ ws)))
        × (try_from little getaddrinfo (written (w ∷ ws))
            ≡ first_resolved little getaddrinfo (written (w ∷ ws)))
  unfolding text groups
  by_words w [] eight h first alone = absurd (omega arith)
  by_words zero (v ∷ ws) eight h first alone =
      let e = written-lone_zero v ws (omega arith) h alone in
      (
        e,
        ap (try_from little getaddrinfo) e
            ∙ text-resolved v ws (omega arith) h little getaddrinfo
            ∙ ap (first_resolved little getaddrinfo) (sym e),
      )
  by_words (suc w) (v ∷ ws) eight h first alone = absurd (omega arith)

  not_mapped :
      (bytes : List ℕ) → longest (zeros (words bytes)) ≡ 1 → zeros_then_mark 10 bytes ≡ false
  unfolding words
  not_mapped bytes alone = elim (Bool-cases (zeros_then_mark 10 bytes)) [
    | inl mapped ↦
        absurd (omega (arith, ap (λ l. longest (zeros (words l))) (mapped-bytes 10 bytes mapped)))
    | inr plain ↦ plain
  ]

  -- A V6 address whose first word is zero and whose words hold no two zeros side by side is written with
  -- a colon in front of its groups, and `TryFrom<&str>` takes that text for a host name.
  pub try_from-lone_zero :
      (bytes : List ℕ)
      → length bytes ≡ 14
      → AreBytes bytes
      → longest (zeros (words (0 ∷ 0 ∷ bytes))) ≡ 1
      → let ip = IpAddress.v6 (0 ∷ 0 ∷ bytes) in
        (fmt ip ≡ colon ∷ join colon (map short (words (0 ∷ 0 ∷ bytes))))
        × (try_from little getaddrinfo (fmt ip) ≡ first_resolved little getaddrinfo (fmt ip))
  unfolding fmt fmt_v6 bytes_as_uncompressed_v6 written words
  try_from-lone_zero bytes long fit alone =
      let (back, eight, words_fit) =
        bytes_of-words 8 (0 ∷ 0 ∷ bytes) (omega arith) (omega arith, (omega arith, fit)) in
      rw (not_mapped (0 ∷ 0 ∷ bytes) alone) (by_words 0 (words bytes) eight words_fit refl alone)
