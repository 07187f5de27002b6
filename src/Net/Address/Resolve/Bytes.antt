-- ===== src/Net/Address/Resolve/Bytes.antt =====
-- src/net/address.rs: the words of an address and the bytes that are read from their groups.
use cl_async.Base.{
  ℕ, zero, suc, ◌+◌, ◌*◌, ◌/◌, ◌%◌, ◌<◌, ◌≡◌, ◌≢◌, refl, ap, ◌∙◌, ◌==◌, true, some, ok, List, [],
  ◌∷◌, map, All, length, arith,
}
use cl_async.Net.Address.Text.{Text, join, colon, hex04, from_str_radix}
use cl_async.Net.Address.Text.Digits.{IsPlain, from_str_radix-hex04, hex04-IsPlain}
use cl_async.Net.Address.Text.Pieces.{Lacks, All-weaken, split-join}
use cl_async.Net.Address.Compress.Written.{AreWords, All-map, length-map}
use cl_async.Net.Address.Compress.Gap.{zero_words}
use cl_async.Net.Address.Display.{words}
use cl_async.Net.Address.Parse.{bytes_of_parts, uncompressed_v6_as_bytes}
use cl_async.Net.Address.Resolve.Dotted.{AreBytes}

-- The bytes of words.
abbrev pub bytes_of : List ℕ → List ℕ
bytes_of [] = []
bytes_of (w ∷ ws) = w / 256 ∷ w % 256 ∷ bytes_of ws

pub bytes_of-words :
    (n : ℕ) (bytes : List ℕ)
    → length bytes ≡ n + n
    → AreBytes bytes
    → (bytes_of (words bytes) ≡ bytes) × (length (words bytes) ≡ n) × AreWords (words bytes)
unfolding words
bytes_of-words zero [] e h = (refl, refl, tt)
bytes_of-words (suc n) [] e h = absurd (omega arith)
bytes_of-words n (a ∷ []) e h = absurd (omega arith)
bytes_of-words zero (a ∷ b ∷ bytes) e h = absurd (omega arith)
bytes_of-words (suc n) (a ∷ b ∷ bytes) e h =
    let (back, long, fit) = bytes_of-words n bytes (omega arith) h.1.1 in
    let high : (a * 256 + b) / 256 ≡ a = omega (arith, h.0, h.1.0) in
    let low : (a * 256 + b) % 256 ≡ b = omega (arith, h.0, h.1.0) in
    (
      ap (λ x. x ∷ (a * 256 + b) % 256 ∷ bytes_of (words bytes)) high
          ∙ ap (λ x. a ∷ x ∷ bytes_of (words bytes)) low
          ∙ ap (λ l. a ∷ b ∷ l) back,
      ap suc long,
      (omega (arith, h.0, h.1.0), fit),
    )

module _ (f : ℕ → Text) (plain : (w : ℕ) → w < 65536 → All IsPlain (f w))
    (read : (w : ℕ) → w < 65536 → from_str_radix 16 65536 (f w) ≡ some w) where
  pub bytes_of_parts-map :
      (ws : List ℕ) → AreWords ws → bytes_of_parts (map f ws) ≡ ok (bytes_of ws)
  unfolding bytes_of_parts
  bytes_of_parts-map [] h = refl
  bytes_of_parts-map (w ∷ ws) h =
      rw (read w h.0, bytes_of_parts, bytes_of_parts-map ws h.1, bytes_of_parts) refl

  pub Lacks-colons : (ws : List ℕ) → AreWords ws → All (Lacks colon) (map f ws)
  Lacks-colons ws =
      All-map (Lacks colon) f ws
        (λ w fits. All-weaken IsPlain (λ x. x ≢ colon) (f w) (λ x p. p.2) (plain w fits))

  pub uncompressed_v6_as_bytes-join :
      (w : ℕ) (ws : List ℕ)
      → length ws ≡ 7
      → AreWords (w ∷ ws)
      → uncompressed_v6_as_bytes (join colon (map f (w ∷ ws))) ≡ ok (bytes_of (w ∷ ws))
  unfolding uncompressed_v6_as_bytes
  uncompressed_v6_as_bytes-join w ws seven h =
      let eight : (suc (length (map f ws)) == 8) ≡ true = ground (arith, length-map f ws) in
      rw (split-join colon (f w) (map f ws) (Lacks-colons (w ∷ ws) h), eight)
        (bytes_of_parts-map (w ∷ ws) h)

pub length-zero_words : (m : ℕ) (ws : List ℕ) → length (zero_words m ws) ≡ m + length ws
length-zero_words zero ws = omega arith
length-zero_words (suc m) ws = omega (arith, length-zero_words m ws)

pub zero_words-AreWords : (m : ℕ) (ws : List ℕ) → AreWords ws → AreWords (zero_words m ws)
zero_words-AreWords zero ws h = h
zero_words-AreWords (suc m) ws h = (omega arith, zero_words-AreWords m ws h)

pub as_bytes-hex04 :
    (ws : List ℕ)
    → length ws ≡ 8
    → AreWords ws
    → uncompressed_v6_as_bytes (join colon (map hex04 ws)) ≡ ok (bytes_of ws)
as_bytes-hex04 [] e h = absurd (omega arith)
as_bytes-hex04 (w ∷ ws) e h =
    uncompressed_v6_as_bytes-join hex04 hex04-IsPlain from_str_radix-hex04 w ws (omega arith) h
