-- ===== src/Net/Address/Text/Digits.antt =====
-- src/net/address.rs: numbers written and read back.
use cl_async.Base.{
  ℕ, ◌+◌, ◌*◌, ◌/◌, ◌%◌, ◌≤◌, ◌<◌, ◌≡◌, ◌≢◌, refl, ap, ◌∙◌, ◌==◌, ltb, true, false, Bool-cases, inl,
  inr, some, List, [], ◌∷◌, map, All, arith,
}
use cl_async.Net.Address.Text.{Text, to_digit, parse_digits, from_str_radix, digit, hex04, decimal}

-- What the digits have in common: they are ASCII, and none is a dot, a colon or a bracket.
abbrev pub IsPlain : ℕ → Type 0
IsPlain c = (47 < c) × (c < 103) × (c ≢ 58) × (c ≢ 91)

pub digit-IsPlain : (d : ℕ) → d < 16 → IsPlain (digit d)
unfolding digit
digit-IsPlain d h = ground arith

pub to_digit-digit : (radix d : ℕ) → d < radix → radix ≤ 16 → to_digit radix (digit d) ≡ some d
unfolding to_digit digit
to_digit-digit radix d h k = ground arith

parse_digits-digit :
    (radix bound d : ℕ) (s : Text) (n : ℕ)
    → d < radix
    → radix ≤ 16
    → n * radix + d < bound
    → parse_digits radix bound (digit d ∷ s) n ≡ parse_digits radix bound s (n * radix + d)
unfolding parse_digits
parse_digits-digit radix bound d s n h k fits =
    let below : ltb (n * radix + d) bound ≡ true = ground arith in
    rw (to_digit-digit radix d h k, parse_digits, below) refl

-- A text without a sign at the front is read digit by digit.
pub from_str_radix-plain :
    (radix bound c : ℕ) (s : Text)
    → IsPlain c
    → from_str_radix radix bound (c ∷ s) ≡ parse_digits radix bound (c ∷ s) 0
unfolding from_str_radix
from_str_radix-plain radix bound c [] h =
    let plus : (c == b'+') ≡ false = ground arith in
    let minus : (c == b'-') ≡ false = ground arith in rw (plus, minus) refl
from_str_radix-plain radix bound c (d ∷ s) h =
    let plus : (c == b'+') ≡ false = ground arith in rw plus refl

-- The texts of digits, and the numbers that they are read as.
abbrev pub DigitsBelow : ℕ → List ℕ → Type 0
DigitsBelow radix = All (λ d. d < radix)

abbrev read_from : ℕ → List ℕ → ℕ → ℕ
read_from radix [] n = n
read_from radix (d ∷ ds) n = read_from radix ds (n * radix + d)

read_from-grows : (radix : ℕ) (ds : List ℕ) (n : ℕ) → 0 < radix → n ≤ read_from radix ds n
read_from-grows radix [] n h = omega arith
read_from-grows radix (d ∷ ds) n h =
    let more : n ≤ n * radix + d = grind arith in
    omega (arith, read_from-grows radix ds (n * radix + d) h)

parse_digits-map :
    (radix bound : ℕ) (ds : List ℕ) (n : ℕ)
    → 0 < radix
    → radix ≤ 16
    → DigitsBelow radix ds
    → read_from radix ds n < bound
    → parse_digits radix bound (map digit ds) n ≡ some (read_from radix ds n)
unfolding parse_digits
parse_digits-map radix bound [] n p k h fits = refl
parse_digits-map radix bound (d ∷ ds) n p k h fits =
    parse_digits-digit radix bound d (map digit ds) n h.0 k
      (omega (arith, read_from-grows radix ds (n * radix + d) p))
    ∙ parse_digits-map radix bound ds (n * radix + d) p k h.1 fits

pub digits-IsPlain : (ds : List ℕ) → DigitsBelow 16 ds → All IsPlain (map digit ds)
digits-IsPlain [] h = tt
digits-IsPlain (d ∷ ds) h = (digit-IsPlain d h.0, digits-IsPlain ds h.1)

from_str_radix-digits :
    (radix bound d : ℕ) (ds : List ℕ)
    → 0 < radix
    → radix ≤ 16
    → DigitsBelow radix (d ∷ ds)
    → read_from radix (d ∷ ds) 0 < bound
    → from_str_radix radix bound (map digit (d ∷ ds)) ≡ some (read_from radix (d ∷ ds) 0)
from_str_radix-digits radix bound d ds p k h fits =
    from_str_radix-plain radix bound (digit d) (map digit ds) (digit-IsPlain d (omega (arith, h.0)))
    ∙ parse_digits-map radix bound (d ∷ ds) 0 p k h fits

abbrev hex_digits : ℕ → List ℕ
hex_digits n = n / 4096 ∷ n / 256 % 16 ∷ n / 16 % 16 ∷ n % 16 ∷ []

module _ (n : ℕ) (fits : n < 65536) where
  hex_digits-below : DigitsBelow 16 (hex_digits n)
  hex_digits-below = omega arith

  hex_digits-read : read_from 16 (hex_digits n) 0 ≡ n
  hex_digits-read = omega arith

  pub hex04-IsPlain : All IsPlain (hex04 n)
  unfolding hex04
  hex04-IsPlain = digits-IsPlain (hex_digits n) hex_digits-below

  pub from_str_radix-hex04 : from_str_radix 16 65536 (hex04 n) ≡ some n
  unfolding hex04
  from_str_radix-hex04 =
      from_str_radix-digits 16 65536 (n / 4096) (n / 256 % 16 ∷ n / 16 % 16 ∷ n % 16 ∷ [])
        (omega arith) (omega arith) hex_digits-below (omega arith)
      ∙ ap some hex_digits-read

-- The digits of a `u8` in its text, and what they are read as.
module _ (n : ℕ) (fits : n < 256) where
  decimal_lem :
      (d : ℕ) × (ds : List ℕ) × (decimal n ≡ map digit (d ∷ ds))
      × DigitsBelow 10 (d ∷ ds)
      × DigitsBelow 16 (d ∷ ds)
      × (read_from 10 (d ∷ ds) 0 ≡ n)
  unfolding decimal
  decimal_lem = elim (Bool-cases (ltb n 10)) [
    | inl one ↦
        let small : n < 10 = ground arith in
        (n, [], rw one refl, omega arith, omega arith, omega arith)
    | inr more ↦ elim (Bool-cases (ltb n 100)) [
      | inl two ↦
          let small : n < 100 = ground arith in
          (n / 10, n % 10 ∷ [], rw (more, two) refl, omega arith, omega arith, omega arith)
      | inr three ↦ (
        n / 100,
        n / 10 % 10 ∷ n % 10 ∷ [],
        rw (more, three) refl,
        omega arith,
        omega arith,
        omega arith,
      )
    ]
  ]

  pub decimal-IsPlain : All IsPlain (decimal n)
  decimal-IsPlain =
      let (d, ds, e, below, hex, read) = decimal_lem in rw e (digits-IsPlain (d ∷ ds) hex)

  pub from_str_radix-decimal : from_str_radix 10 256 (decimal n) ≡ some n
  from_str_radix-decimal =
      let (d, ds, e, below, hex, read) = decimal_lem in
      ap (from_str_radix 10 256) e
      ∙ from_str_radix-digits 10 256 d ds (omega arith) (omega arith) below (omega arith)
      ∙ ap some read
