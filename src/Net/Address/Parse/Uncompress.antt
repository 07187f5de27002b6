-- ===== src/Net/Address/Parse/Uncompress.antt =====
-- src/net/address.rs: `uncompress_v6` puts the zeros back where the text has a gap.
use cl_async.Base.{
  ℕ, zero, suc, ◌+◌, max, ◌≤◌, ◌<◌, ◌≡◌, ◌≢◌, refl, sym, ap, ◌∙◌, ltb, false, some, none, ok, List,
  [], ◌∷◌, ◌++◌, map, All, length, length-append, arith,
}
use cl_async.Net.Address.Text.{Text, join, split, trim, colon, hex04, digit}
use cl_async.Net.Address.Text.Digits.{IsPlain}
use cl_async.Net.Address.Text.Pieces.{
  IsVisible, All-weaken, split-join, All-append, trim_each-IsVisible,
}
use cl_async.Net.Address.Text.Search.{IsFilled}
use cl_async.Net.Address.Compress.Groups.{
  short, short-IsPlain, short-IsFilled, len-short, padded-short,
}
use cl_async.Net.Address.Compress.Written.{AreWords, All-map, length-map}
use cl_async.Net.Address.Compress.Gap.{ends, zero_words}
use cl_async.Net.Address.Parse.Parts.{
  IsGroup, without_first_empty-ends, without_last_empty-ends, pad_each-gap, recombined_parts-gap,
}
use cl_async.Net.Address.Parse.{
  padded, without_first_empty, without_last_empty, pad_each, zero_part, zero_parts,
  recombined_parts, rejoined, uncompressed_parts, uncompress_v6,
}

shorts-AreGroups : (ws : List ℕ) → AreWords ws → All IsGroup (map short ws)
shorts-AreGroups ws =
    All-map IsGroup short ws
      (λ w fits. (short-IsPlain w fits, short-IsFilled w fits, len-short w fits))

shorts-AreFilled : (ws : List ℕ) → AreWords ws → All IsFilled (map short ws)
shorts-AreFilled ws = All-map IsFilled short ws short-IsFilled

padded-shorts : (ws : List ℕ) → AreWords ws → map padded (map short ws) ≡ map hex04 ws
padded-shorts [] h = refl
padded-shorts (w ∷ ws) h =
    ap (λ t. t ∷ map padded (map short ws)) (padded-short w h.0)
    ∙ ap (λ l. hex04 w ∷ l) (padded-shorts ws h.1)

map-zero_words :
    (before : List ℕ) (m : ℕ) (behind : List ℕ)
    → map hex04 (before ++ zero_words m behind)
      ≡ map hex04 before ++ zero_parts m (map hex04 behind)
unfolding zero_parts hex04 digit
map-zero_words [] zero behind = refl
map-zero_words [] (suc m) behind = ap (λ l. zero_part ∷ l) (map-zero_words [] m behind)
map-zero_words (w ∷ before) m behind = ap (λ l. hex04 w ∷ l) (map-zero_words before m behind)

All-ends : (P : ℕ → Type 0) (parts : List Text) → All (All P) parts → All (All P) (ends parts)
All-ends P [] h = (tt, tt)
All-ends P (part ∷ parts) h = h

-- The parts of the text with a gap.
abbrev pub with_gap : List ℕ → List ℕ → List Text
with_gap before behind = ends (map short before) ++ [] ∷ ends (map short behind)

pub All-with_gap :
    (P : ℕ → Type 0) (before behind : List ℕ)
    → ((x : ℕ) → IsPlain x → P x)
    → AreWords before
    → AreWords behind
    → All (All P) (with_gap before behind)
All-with_gap P before behind f h k =
    let each : (w : ℕ) → w < 65536 → All P (short w) =
      λ w fits. All-weaken IsPlain P (short w) f (short-IsPlain w fits) in
    All-append (All P) (ends (map short before)) ([] ∷ ends (map short behind))
      (All-ends P (map short before) (All-map (All P) short before each h))
      (tt, All-ends P (map short behind) (All-map (All P) short behind each k))

-- Splitting finds the parts.
pub split-with_gap :
    (before behind : List ℕ)
    → AreWords before
    → AreWords behind
    → split colon (join colon (with_gap before behind)) ≡ with_gap before behind
split-with_gap [] behind h k =
    split-join colon [] ([] ∷ ends (map short behind))
      (All-with_gap (λ x. x ≢ colon) [] behind (λ x p. p.2) h k)
split-with_gap (w ∷ before) behind h k =
    split-join colon (short w) (map short before ++ [] ∷ ends (map short behind))
      (All-with_gap (λ x. x ≢ colon) (w ∷ before) behind (λ x p. p.2) h k)

length-ends : (ws : List ℕ) → length (ends (map short ws)) ≡ max (length ws) 1
length-ends [] = omega arith
length-ends (w ∷ ws) = omega (arith, length-map short ws)

module _ (before behind : List ℕ) (n : ℕ) (some_left_out : 0 < n)
    (eight : length before + suc n + length behind ≡ 8) (h : AreWords before)
    (k : AreWords behind) where
  pub length-with_gap :
      (3 ≤ length (with_gap before behind)) × (length (with_gap before behind) ≤ 8)
  length-with_gap = omega (
    arith,
    length-append (ends (map short before)) ([] ∷ ends (map short behind)),
    length-ends before,
    length-ends behind,
  )

  trimmed-gap :
      map trim (split colon (join colon (with_gap before behind))) ≡ with_gap before behind
  trimmed-gap =
      ap (map trim) (split-with_gap before behind h k)
      ∙ trim_each-IsVisible (with_gap before behind) (
          All-with_gap IsVisible before behind (λ x p. (omega (arith, p.0), omega (arith, p.1))) h
            k)

  inner-gap :
      without_last_empty (without_first_empty (with_gap before behind))
      ≡ map short before ++ [] ∷ map short behind
  inner-gap =
      ap without_last_empty (
        without_first_empty-ends (map short before) ([] ∷ ends (map short behind))
          (shorts-AreFilled before h))
      ∙ without_last_empty-ends (map short before) (map short behind) (shorts-AreFilled before h)
          (shorts-AreFilled behind k)

  padded-gap :
      pad_each (map short before ++ [] ∷ map short behind) 0 none
      ≡ ok (map hex04 before ++ [] ∷ map hex04 behind, some (length (map hex04 before)))
  padded-gap =
      let e : 0 + length (map short before) ≡ length (map hex04 before) =
        omega (arith, length-map short before, length-map hex04 before) in
      pad_each-gap (map short before) (map short behind) 0 (shorts-AreGroups before h)
        (shorts-AreGroups behind k)
      ∙ ap (λ j. ok (map padded (map short before) ++ [] ∷ map padded (map short behind), some j)) e
      ∙ ap (λ l. ok (l ++ [] ∷ map padded (map short behind), some (length (map hex04 before))))
          (padded-shorts before h)
      ∙ ap (λ l. ok (map hex04 before ++ [] ∷ l, some (length (map hex04 before))))
          (padded-shorts behind k)

  rejoined-gap :
      uncompressed_parts (with_gap before behind)
      ≡ recombined_parts
          (map hex04 before ++ [] ∷ map hex04 behind)
          (some (length (map hex04 before)))
  unfolding uncompressed_parts
  rejoined-gap =
      let few : ltb 9 (length (with_gap before behind)) ≡ false = ground (arith, length-with_gap) in
      let many : ltb (length (with_gap before behind)) 3 ≡ false =
        ground (arith, length-with_gap) in
      rw (few, many) (ap rejoined (ap (λ ps. pad_each ps 0 none) inner-gap ∙ padded-gap))

  -- What is left out comes back as zeros.
  pub uncompress_v6-gap :
      uncompress_v6 (join colon (with_gap before behind))
      ≡ ok (join colon (map hex04 (before ++ zero_words (suc n) behind)))
  unfolding uncompress_v6
  uncompress_v6-gap =
      ap uncompressed_parts trimmed-gap
      ∙ rejoined-gap
      ∙ recombined_parts-gap (map hex04 before) (map hex04 behind) n
          (omega (arith, length-map hex04 before, length-map hex04 behind))
      ∙ ap (λ l. ok (join colon l)) (sym (map-zero_words before (suc n) behind))
