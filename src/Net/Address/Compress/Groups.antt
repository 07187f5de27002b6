-- ===== src/Net/Address/Compress/Groups.antt =====
-- src/net/address.rs: the group of a word in a V6 address, without the noughts in front.
use cl_async.Base.{
  ℕ, suc, ◌-◌, ◌≤◌, ◌<◌, ◌≡◌, refl, sym, ap, ◌∙◌, ◌==◌, true, false, Bool-cases, inl, inr, some,
  some-injective, [], ◌∷◌, All, length, arith,
}
use cl_async.Net.Address.Text.{
  Text, len, width, nought, hex04, digit, to_digit, parse_digits, from_str_radix,
}
use cl_async.Net.Address.Text.Digits.{
  IsPlain, hex04-IsPlain, from_str_radix-hex04, from_str_radix-plain,
}
use cl_async.Net.Address.Text.Search.{IsFilled}
use cl_async.Net.Address.Compress.{without_zeros, is_zero}
use cl_async.Net.Address.Parse.{noughts_then, padded}

len-plain : (s : Text) → All IsPlain s → len s ≡ length s
unfolding width
len-plain [] h = refl
len-plain (x ∷ s) h = ground (arith, h.0, len-plain s h.1)

without_zeros-IsPlain : (s : Text) → All IsPlain s → All IsPlain (without_zeros s)
unfolding without_zeros
without_zeros-IsPlain [] h = tt
without_zeros-IsPlain (x ∷ []) h = h
without_zeros-IsPlain (x ∷ y ∷ s) h = elim (Bool-cases (x == nought)) [
  | inl zero_first ↦ rw zero_first (without_zeros-IsPlain (y ∷ s) h.1)
  | inr other ↦ rw other h
]

without_zeros-IsFilled : (s : Text) → IsFilled s → IsFilled (without_zeros s)
unfolding without_zeros
without_zeros-IsFilled [] h = h
without_zeros-IsFilled (x ∷ []) h = tt
without_zeros-IsFilled (x ∷ y ∷ s) h = elim (Bool-cases (x == nought)) [
  | inl zero_first ↦ rw zero_first (without_zeros-IsFilled (y ∷ s) tt)
  | inr other ↦ rw other tt
]

length-without_zeros : (s : Text) → length (without_zeros s) ≤ length s
unfolding without_zeros
length-without_zeros [] = omega arith
length-without_zeros (x ∷ []) = omega arith
length-without_zeros (x ∷ y ∷ s) = elim (Bool-cases (x == nought)) [
  | inl zero_first ↦ rw zero_first (omega (arith, length-without_zeros (y ∷ s)))
  | inr other ↦ rw other (omega arith)
]

-- The noughts that were taken away, put back.
noughts_then-without_zeros :
    (s : Text) → noughts_then (length s - length (without_zeros s)) (without_zeros s) ≡ s
unfolding without_zeros noughts_then
noughts_then-without_zeros [] = refl
noughts_then-without_zeros (x ∷ []) = refl
noughts_then-without_zeros (x ∷ y ∷ s) = elim (Bool-cases (x == nought)) [
  | inl zero_first ↦
      let n = length (without_zeros (y ∷ s)) in
      let one_more : suc (suc (length s)) - n ≡ suc (suc (length s) - n) =
        omega (arith, length-without_zeros (y ∷ s)) in
      let is_nought : nought ≡ x = ground arith in
      rw zero_first (
        ap (λ k. noughts_then k (without_zeros (y ∷ s))) one_more
        ∙ ap (λ t. nought ∷ t) (noughts_then-without_zeros (y ∷ s))
        ∙ ap (λ c. c ∷ y ∷ s) is_nought)
  | inr other ↦
      let none_left : suc (suc (length s)) - suc (suc (length s)) ≡ 0 = omega arith in
      rw other (ap (λ k. noughts_then k (x ∷ y ∷ s)) none_left)
]

parse_digits-nought : (s : Text) → parse_digits 16 65536 (nought ∷ s) 0 ≡ parse_digits 16 65536 s 0
unfolding parse_digits to_digit
parse_digits-nought s = refl

from_str_radix-without_zeros :
    (s : Text)
    → All IsPlain s
    → from_str_radix 16 65536 (without_zeros s) ≡ from_str_radix 16 65536 s
unfolding without_zeros
from_str_radix-without_zeros [] h = refl
from_str_radix-without_zeros (x ∷ []) h = refl
from_str_radix-without_zeros (x ∷ y ∷ s) h = elim (Bool-cases (x == nought)) [
  | inl zero_first ↦
      let is_nought : x ≡ nought = ground arith in
      rw zero_first (
        from_str_radix-without_zeros (y ∷ s) h.1
        ∙ from_str_radix-plain 16 65536 y s h.1.0
        ∙ sym (parse_digits-nought (y ∷ s))
        ∙ ap (λ c. parse_digits 16 65536 (c ∷ y ∷ s) 0) (sym is_nought)
        ∙ sym (from_str_radix-plain 16 65536 x (y ∷ s) h.0))
  | inr other ↦ rw other refl
]

-- The group of a word.
unfoldable pub short : ℕ → Text
short w = without_zeros (hex04 w)

length-IsFilled : (s : Text) → IsFilled s → 0 < length s
length-IsFilled [] h = elim h [ ]
length-IsFilled (x ∷ s) h = omega arith

zero_group : (s : Text) → is_zero s ≡ true → s ≡ nought ∷ []
unfolding is_zero
zero_group [] h = cc
zero_group (x ∷ []) h = let e : x ≡ nought = ground arith in ap (λ c. c ∷ []) e
zero_group (x ∷ y ∷ s) h = cc

zero_word : {w : ℕ} (s : Text) → is_zero s ≡ true → from_str_radix 16 65536 s ≡ some w → w ≡ 0
unfolding parse_digits
zero_word {w} s h e =
    let read : some 0 ≡ some w =
      sym zero_read ∙ ap (from_str_radix 16 65536) (sym (zero_group s h)) ∙ e in
    sym (some-injective 0 w read)
  where
    zero_read : from_str_radix 16 65536 (nought ∷ []) ≡ some 0
    zero_read = from_str_radix-plain 16 65536 nought [] (omega arith) ∙ parse_digits-nought []

is_zero-short_zero : is_zero (short 0) ≡ true
unfolding is_zero short without_zeros hex04 digit
is_zero-short_zero = refl

module _ (w : ℕ) (fits : w < 65536) where
  pub short-IsPlain : All IsPlain (short w)
  unfolding short
  short-IsPlain = without_zeros-IsPlain (hex04 w) (hex04-IsPlain w fits)

  pub short-IsFilled : IsFilled (short w)
  unfolding short hex04
  short-IsFilled = without_zeros-IsFilled (hex04 w) tt

  pub len-short : len (short w) ≤ 4
  unfolding short hex04
  len-short = omega (arith, len-plain (short w) short-IsPlain, length-without_zeros (hex04 w))

  pub len-hex04 : len (hex04 w) ≡ 4
  len-hex04 = len-plain (hex04 w) (hex04-IsPlain w fits) ∙ unfold hex04 in refl

  pub len_short-positive : (len (short w) == 0) ≡ false
  len_short-positive =
      let filled : 0 < length (short w) = length-IsFilled (short w) short-IsFilled in
      ground (arith, len-plain (short w) short-IsPlain)

  pub padded-short : padded (short w) ≡ hex04 w
  unfolding padded short
  padded-short =
      ap (λ n. noughts_then (4 - n) (short w)) (len-plain (short w) short-IsPlain)
      ∙ unfold hex04 in noughts_then-without_zeros (hex04 w)

  pub from_str_radix-short : from_str_radix 16 65536 (short w) ≡ some w
  unfolding short
  from_str_radix-short =
      from_str_radix-without_zeros (hex04 w) (hex04-IsPlain w fits) ∙ from_str_radix-hex04 w fits

  pub is_zero-short : is_zero (short w) ≡ (w == 0)
  is_zero-short = elim (Bool-cases (is_zero (short w))) [
    | inl is ↦
        let e : w ≡ 0 = zero_word (short w) is from_str_radix-short in
        let there : (w == 0) ≡ true = ground arith in is ∙ sym there
    | inr not_zero ↦ elim (Bool-cases (w == 0)) [
      | inl here ↦
          let e : w ≡ 0 = ground arith in
          let yes_zero : is_zero (short w) ≡ true =
            ap (λ v. is_zero (short v)) e ∙ is_zero-short_zero in
          cc
      | inr other ↦ not_zero ∙ sym other
    ]
  ]
