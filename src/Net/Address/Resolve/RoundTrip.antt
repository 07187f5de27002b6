-- ===== src/Net/Address/Resolve/RoundTrip.antt =====
-- src/net/address.rs: an `IpAddress` that is written is read back.
use cl_async.Base.{
  ℕ, zero, suc, ◌+◌, ◌≡◌, refl, sym, ap, subst, ◌∙◌, Bool, true, ◌⊎◌, inl, inr, Bool-cases, Result,
  ok, List, [], ◌∷◌, ◌++◌, map, drop, length, length-append, length-drop, arith,
}
use cl_async.Net.Address.{IpAddress}
use cl_async.Net.Address.Text.{Text, join, colon, hex04}
use cl_async.Net.Address.Compress.{compress_v6, removed, recombined}
use cl_async.Net.Address.Compress.Groups.{short}
use cl_async.Net.Address.Compress.Written.{AreWords, found_in, compress_v6-words}
use cl_async.Net.Address.Compress.Gap.{zero_words, IsGap, NoLoneEnd, IsWritten-words}
use cl_async.Net.Address.Display.{
  words, fmt, fmt_v6, dotted, unwrap_or, mapped_prefix, zeros_then_mark, bytes_as_uncompressed_v6,
}
use cl_async.Net.Address.Parse.{zeros_and_mark}
use cl_async.Net.Address.Resolve.{try_from, AddrInfo, ResolveHostnamePreferences}
use cl_async.Net.Address.Resolve.Dotted.{AreBytes, try_from-dotted, try_from-mapped}
use cl_async.Net.Address.Resolve.Groups.{try_from-full, try_from-gapped}
use cl_async.Net.Address.Resolve.Bytes.{bytes_of, bytes_of-words, length-zero_words}

-- Groups of eight words as `Display` writes them.
unfoldable pub written : List ℕ → Text
written ws =
    let uncompressed = join colon (map hex04 ws) in
    unwrap_or (compress_v6 uncompressed) uncompressed

append-AreWords :
    (before others : List ℕ) → AreWords (before ++ others) → AreWords before × AreWords others
append-AreWords [] others h = (tt, h)
append-AreWords (w ∷ before) others h =
    let (k, l) = append-AreWords before others h.1 in ((h.0, k), l)

zero_words-rest : (m : ℕ) (ws : List ℕ) → AreWords (zero_words m ws) → AreWords ws
zero_words-rest zero ws h = h
zero_words-rest (suc m) ws h = zero_words-rest m ws h.1

-- The bytes of zeros, then the mark of a mapped address.
pub mapped-bytes :
    (n : ℕ) (bytes : List ℕ)
    → zeros_then_mark n bytes ≡ true
    → bytes ≡ zero_words n (255 ∷ 255 ∷ drop (suc (suc n)) bytes)
unfolding zeros_then_mark
mapped-bytes zero [] h = cc
mapped-bytes (suc n) [] h = cc
mapped-bytes zero (b ∷ []) h = cc
mapped-bytes zero (b ∷ c ∷ bytes) h =
    let e : b ≡ 255 = ground arith in
    let f : c ≡ 255 = ground arith in ap (λ x. x ∷ c ∷ bytes) e ∙ ap (λ x. 255 ∷ x ∷ bytes) f
mapped-bytes (suc n) (b ∷ bytes) h =
    let e : b ≡ 0 = ground arith in
    let rest : zeros_then_mark n bytes ≡ true = ground arith in
    ap (λ x. x ∷ bytes) e ∙ ap (λ l. 0 ∷ l) (mapped-bytes n bytes rest)

drop-AreBytes : (n : ℕ) (bytes : List ℕ) → AreBytes bytes → AreBytes (drop n bytes)
drop-AreBytes zero bytes h = h
drop-AreBytes (suc n) [] h = tt
drop-AreBytes (suc n) (b ∷ bytes) h = drop-AreBytes n bytes h.1

-- The addresses that this is about.
abbrev pub IsReadable : IpAddress → Type 0
IsReadable (IpAddress.v4 a) = AreBytes (a.b0 ∷ a.b1 ∷ a.b2 ∷ a.b3 ∷ [])
IsReadable (IpAddress.v6 bytes) =
    (length bytes ≡ 16)
    × AreBytes bytes
    × ((zeros_then_mark 10 bytes ≡ true) ⊎ NoLoneEnd (words bytes))

module _ (little : Bool)
    (getaddrinfo : Text → ResolveHostnamePreferences → Result (List AddrInfo) ℕ) where
  gap-read :
      (ws : List ℕ) (t : Text)
      → length ws ≡ 8
      → AreWords ws
      → IsGap ws t
      → try_from little getaddrinfo t ≡ ok (IpAddress.v6 (bytes_of ws))
  gap-read ws t eight h (before, zero, behind, two, e, et) = absurd (omega arith)
  gap-read ws t eight h (before, suc n, behind, two, e, et) =
      let (fit, others) = append-AreWords before (zero_words (suc n) behind) (subst AreWords e h) in
      let long : length before + suc n + length behind ≡ 8 = omega (
        arith,
        ap length e,
        length-append before (zero_words (suc n) behind),
        length-zero_words (suc n) behind,
      ) in
      ap (try_from little getaddrinfo) et
      ∙ try_from-gapped before behind n (omega arith) long fit
          (zero_words-rest (suc n) behind others) little getaddrinfo
      ∙ ap (λ l. ok (IpAddress.v6 (bytes_of l))) (sym e)

  written-read :
      (ws : List ℕ)
      → length ws ≡ 8
      → AreWords ws
      → NoLoneEnd ws
      → try_from little getaddrinfo (written ws) ≡ ok (IpAddress.v6 (bytes_of ws))
  written-read [] eight h good = absurd (omega arith)
  written-read (w ∷ []) eight h good = absurd (omega arith)
  written-read (w ∷ v ∷ ws) eight h good =
      let six : length ws ≡ 6 = omega arith in
      let all = w ∷ v ∷ ws in
      let t =
        recombined (found_in all).double_colon_index (removed (found_in all) (map short all)) in
      let e : written all ≡ t =
        unfold written in
        unfold unwrap_or in rw (compress_v6-words w (v ∷ ws) (omega arith) h) refl in
      ap (try_from little getaddrinfo) e ∙ elim (IsWritten-words w v ws six h good) [
        | inl gap ↦ gap-read all t eight h gap
        | inr et ↦
            ap (try_from little getaddrinfo) et ∙ try_from-full w v ws six h little getaddrinfo
      ]

  mapped-read :
      (bytes : List ℕ)
      → length bytes ≡ 4
      → AreBytes bytes
      → try_from little getaddrinfo (mapped_prefix ++ dotted bytes)
        ≡ ok (IpAddress.v6 (zeros_and_mark ++ bytes))
  mapped-read [] e h = absurd (omega arith)
  mapped-read (a ∷ []) e h = absurd (omega arith)
  mapped-read (a ∷ b ∷ []) e h = absurd (omega arith)
  mapped-read (a ∷ b ∷ c ∷ []) e h = absurd (omega arith)
  mapped-read (a ∷ b ∷ c ∷ d ∷ []) e h = try_from-mapped a b c d h little getaddrinfo
  mapped-read (a ∷ b ∷ c ∷ d ∷ x ∷ bytes) e h = absurd (omega arith)

  read_v6 :
      (bytes : List ℕ)
      → IsReadable (IpAddress.v6 bytes)
      → try_from little getaddrinfo (fmt (IpAddress.v6 bytes)) ≡ ok (IpAddress.v6 bytes)
  unfolding fmt fmt_v6 bytes_as_uncompressed_v6 written
  read_v6 bytes (long, fit, good) = elim (Bool-cases (zeros_then_mark 10 bytes)) [
    | inl mapped ↦ rw mapped (
        mapped-read (drop 12 bytes) (omega (arith, length-drop 12 bytes))
          (drop-AreBytes 12 bytes fit)
        ∙ ap (λ l. ok (IpAddress.v6 l)) (sym (mapped-bytes 10 bytes mapped)))
    | inr plain ↦
        let (back, eight, words_fit) = bytes_of-words 8 bytes (omega arith) fit in
        rw plain (elim good [
          | inl mapped ↦ absurd (ground arith)
          | inr good_words ↦
              written-read (words bytes) eight words_fit good_words
              ∙ ap (λ l. ok (IpAddress.v6 l)) back
        ])
  ]

  -- An address that `Display` writes is read back by `TryFrom<&str>` as itself, without a question to
  -- the resolver, if it is a V4 address, a mapped one, or a V6 address that has two zero words side by
  -- side or whose first and last words are not zero.
  pub try_from-fmt : (ip : IpAddress) → IsReadable ip → try_from little getaddrinfo (fmt ip) ≡ ok ip
  unfolding fmt
  try_from-fmt (IpAddress.v4 a) h = try_from-dotted a.b0 a.b1 a.b2 a.b3 h little getaddrinfo
  try_from-fmt (IpAddress.v6 bytes) h = read_v6 bytes h
