-- ===== src/Net/Address/Text.antt =====
-- The operations of `str` that src/net/address.rs uses. A text is the list of its characters, each its code.
pub mod Pieces
pub mod Search
pub mod Digits
use cl_async.Base.{
  ℕ, zero, suc, ◌+◌, ◌-◌, ◌*◌, ◌/◌, ◌%◌, ◌==◌, ltb, leb, Bool, true, false, ◌&&◌, ◌||◌,
  if◌then◌else◌, Option, none, some, List, [], ◌∷◌, ◌++◌, sum_of,
}

abbrev pub Text : Type 0
Text = List ℕ

abbrev pub colon : ℕ
colon = 58

abbrev pub dot : ℕ
dot = 46

abbrev pub nought : ℕ
nought = 48

-- The bytes of a character in UTF-8, and `str::len`.
unfoldable pub width : ℕ → ℕ
width c = if ltb c 128 then 1 else if ltb c 2048 then 2 else if ltb c 65536 then 3 else 4

abbrev pub len : Text → ℕ
len = sum_of width

-- `char::is_whitespace`.
unfoldable pub is_whitespace : ℕ → Bool
is_whitespace c =
    (leb 9 c && leb c 13)
    || c == 32
    || c == 133
    || c == 160
    || c == 5760
    || (leb 8192 c && leb c 8202)
    || c == 8232
    || c == 8233
    || c == 8239
    || c == 8287
    || c == 12288

trim_start : Text → Text
trim_start [] = []
trim_start (x ∷ s) = if is_whitespace x then trim_start s else x ∷ s

trim_end : Text → Text
trim_end [] = []
trim_end (x ∷ s) = elim (trim_end s) [
  | [] ↦ if is_whitespace x then [] else x ∷ []
  | y ∷ t ↦ x ∷ y ∷ t
]

unfoldable pub trim : Text → Text
unfolding trim_start trim_end
trim s = trim_end (trim_start s)

-- `str::split` at a character, and `join`.
unfoldable pub split : ℕ → Text → List Text
split c [] = [] ∷ []
split c (x ∷ s) = elim (split c s) [
  | [] ↦ [] ∷ []
  | part ∷ parts ↦ if x == c then [] ∷ part ∷ parts else (x ∷ part) ∷ parts
]

unfoldable pub join : ℕ → List Text → Text
join c [] = []
join c (part ∷ []) = part
join c (part ∷ next ∷ parts) = part ++ c ∷ join c (next ∷ parts)

-- `matches(c).count()`.
unfoldable pub count : ℕ → Text → ℕ
count c [] = 0
count c (x ∷ s) = (if x == c then 1 else 0) + count c s

unfoldable pub starts_with : Text → Text → Bool
starts_with [] s = true
starts_with (p ∷ pattern_) [] = false
starts_with (p ∷ pattern_) (x ∷ s) = p == x && starts_with pattern_ s

-- `str::contains`.
unfoldable pub includes : Text → Text → Bool
unfolding starts_with
includes p [] = starts_with p []
includes p (x ∷ s) = starts_with p (x ∷ s) || includes p s

-- `char::to_digit`.
unfoldable pub to_digit : ℕ → ℕ → Option ℕ
to_digit radix c =
    let d =
      if leb 48 c && leb c 57
      then c - 48
      else if leb 97 c && leb c 122
      then c - 87
      else if leb 65 c && leb c 90
      then c - 55
      else radix in
    if ltb d radix then some d else none

unfoldable pub parse_digits : (radix bound : ℕ) → Text → ℕ → Option ℕ
parse_digits radix bound [] n = some n
parse_digits radix bound (c ∷ s) n = elim (to_digit radix c) [
  | none ↦ none
  | some d ↦
      let rest = parse_digits radix bound s (n * radix + d) in
      if ltb (n * radix + d) bound then rest else none
]

-- `from_str_radix` of an unsigned type whose numbers are below `bound`; `parse` has radix 10.
unfoldable pub from_str_radix : (radix bound : ℕ) → Text → Option ℕ
unfolding parse_digits
from_str_radix radix bound [] = none
from_str_radix radix bound (c ∷ []) =
    if c == b'+' || c == b'-' then none else parse_digits radix bound (c ∷ []) 0
from_str_radix radix bound (c ∷ d ∷ s) =
    parse_digits radix bound (if c == b'+' then d ∷ s else c ∷ d ∷ s) 0

-- A digit in lower case, `{:04x}` of a `u16`, and `{}` of a `u8`.
unfoldable pub digit : ℕ → ℕ
digit d = if ltb d 10 then 48 + d else 87 + d

unfoldable pub hex04 : ℕ → Text
hex04 n = digit (n / 4096) ∷ digit (n / 256 % 16) ∷ digit (n / 16 % 16) ∷ digit (n % 16) ∷ []

unfoldable pub decimal : ℕ → Text
decimal n =
    if ltb n 10
    then digit n ∷ []
    else if ltb n 100
    then digit (n / 10) ∷ digit (n % 10) ∷ []
    else digit (n / 100) ∷ digit (n / 10 % 10) ∷ digit (n % 10) ∷ []
