-- ===== src/Net/Address/Compress/Written.antt =====
-- src/net/address.rs: what `compress_v6` makes of the text of eight words.
use cl_async.Base.{
  ℕ, suc, ◌<◌, ◌≡◌, ◌≢◌, refl, ap, ◌∙◌, ◌==◌, Bool, true, false, if◌then◌else◌, ok, err, List, [],
  ◌∷◌, map, All, length, arith,
}
use cl_async.Net.Address.Text.{Text, trim, split, join, colon, hex04}
use cl_async.Net.Address.Text.Digits.{IsPlain, hex04-IsPlain}
use cl_async.Net.Address.Text.Pieces.{Lacks, IsVisible, All-weaken, split-join, trim_each-IsVisible}
use cl_async.Net.Address.Compress.{
  IpV6CompressError, Found, scan, is_zero, removed, recombined, has_empty, trimmed_parts,
  compressed, compress_v6,
}
use cl_async.Net.Address.Compress.Runs.{nothing_found}
use cl_async.Net.Address.Compress.Groups.{short, is_zero-short, len-hex04, len_short-positive}

abbrev pub AreWords : List ℕ → Type 0
AreWords = All (λ w. w < 65536)

-- Which words are zero.
abbrev pub zeros : List ℕ → List Bool
zeros = map (λ w. w == 0)

-- A property of the texts of all words.
pub All-map :
    (P : Text → Type 0) (f : ℕ → Text) (ws : List ℕ)
    → ((w : ℕ) → w < 65536 → P (f w))
    → AreWords ws
    → All P (map f ws)
All-map P f [] each h = tt
All-map P f (w ∷ ws) each h = (each w h.0, All-map P f ws each h.1)

pub hex04-ArePlain :
    (Q : ℕ → Type 0) (ws : List ℕ)
    → ((x : ℕ) → IsPlain x → Q x)
    → AreWords ws
    → All (All Q) (map hex04 ws)
hex04-ArePlain Q ws f h =
    All-map (All Q) hex04 ws (λ w fits. All-weaken IsPlain Q (hex04 w) f (hex04-IsPlain w fits)) h

trimmed_parts-hex04 : (ws : List ℕ) → AreWords ws → trimmed_parts (map hex04 ws) ≡ ok (map short ws)
unfolding trimmed_parts
trimmed_parts-hex04 [] h = refl
trimmed_parts-hex04 (w ∷ ws) h =
    rw (len-hex04 w h.0, trimmed_parts-hex04 ws h.1, trimmed_parts) (unfold short in refl)

pub has_empty-short : (ws : List ℕ) → AreWords ws → has_empty (map short ws) ≡ false
unfolding has_empty
has_empty-short [] h = refl
has_empty-short (w ∷ ws) h = rw (len_short-positive w h.0, has_empty-short ws h.1) refl

pub is_zero-shorts : (ws : List ℕ) → AreWords ws → map is_zero (map short ws) ≡ zeros ws
is_zero-shorts [] h = refl
is_zero-shorts (w ∷ ws) h =
    ap (λ b. b ∷ map is_zero (map short ws)) (is_zero-short w h.0)
    ∙ ap (λ l. (w == 0) ∷ l) (is_zero-shorts ws h.1)

pub length-map : (f : ℕ → Text) (ws : List ℕ) → length (map f ws) ≡ length ws
length-map f [] = refl
length-map f (w ∷ ws) = ap suc (length-map f ws)

-- What the scan finds in the words.
abbrev pub found_in : List ℕ → Found
found_in ws = scan (zeros ws) 0 0 nothing_found

compressed-shorts :
    (ws : List ℕ)
    → AreWords ws
    → compressed (ok (map short ws))
      ≡ ok (recombined (found_in ws).double_colon_index (removed (found_in ws) (map short ws)))
unfolding compressed
compressed-shorts ws h = rw (is_zero-shorts ws h, has_empty-short ws h) refl

pub compress_v6-compressed :
    (w : ℕ) (ws : List ℕ)
    → length ws ≡ 7
    → AreWords (w ∷ ws)
    → compress_v6 (join colon (map hex04 (w ∷ ws))) ≡ compressed (ok (map short (w ∷ ws)))
unfolding compress_v6
compress_v6-compressed w ws seven h =
    let parts = map hex04 (w ∷ ws) in
    let lacks : All (Lacks colon) parts = hex04-ArePlain (λ x. x ≢ colon) (w ∷ ws) (λ x k. k.2) h in
    let visible : All (All IsVisible) parts =
      hex04-ArePlain IsVisible (w ∷ ws) (λ x k. (omega (arith, k.0), omega (arith, k.1))) h in
    let eight : (length (map hex04 (w ∷ ws)) == 8) ≡ true = ground (arith, length-map hex04 ws) in
    let same : map trim (split colon (join colon parts)) ≡ parts =
      ap (map trim) (split-join colon (hex04 w) (map hex04 ws) lacks)
      ∙ trim_each-IsVisible parts visible in
    ap
      (λ ps.
        if length ps == 8
        then compressed (trimmed_parts ps)
        else err IpV6CompressError.invalid_uncompressed_v6_format)
      same
    ∙ rw (eight, trimmed_parts-hex04 (w ∷ ws) h) refl

pub compress_v6-words :
    (w : ℕ) (ws : List ℕ)
    → length ws ≡ 7
    → AreWords (w ∷ ws)
    → compress_v6 (join colon (map hex04 (w ∷ ws)))
      ≡ ok (
          recombined
            (found_in (w ∷ ws)).double_colon_index
            (removed (found_in (w ∷ ws)) (map short (w ∷ ws))))
compress_v6-words w ws seven h = compress_v6-compressed w ws seven h ∙ compressed-shorts (w ∷ ws) h
