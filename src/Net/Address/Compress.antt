-- ===== src/Net/Address/Compress.antt =====
-- src/net/address.rs, `compress_v6`: the short text of a V6 address.
--
-- An error leaves out the text that it quotes.
pub mod Runs
pub mod Groups
pub mod Written
pub mod Gap
use cl_async.Net.Address.Text.{Text, colon, nought, len, trim, split, join}
use cl_async.Base.{
  ℕ, zero, suc, ◌+◌, ◌-◌, ◌==◌, ltb, leb, Bool, true, false, ◌&&◌, ◌||◌, if◌then◌else◌, Option,
  none, some, List, [], ◌∷◌, ◌++◌, length, take, drop, map, Result, ok, err,
}

pub data IpV6CompressError : Type 0 where
  invalid_uncompressed_v6_format invalid_uncompressed_v6_value : IpV6CompressError

-- `while part.len() > 1 && part.starts_with("0")`.
unfoldable pub without_zeros : Text → Text
without_zeros [] = []
without_zeros (x ∷ []) = x ∷ []
without_zeros (x ∷ y ∷ part) = if x == nought then without_zeros (y ∷ part) else x ∷ y ∷ part

-- The first loop over the parts.
unfoldable pub trimmed_parts : List Text → Result (List Text) IpV6CompressError
unfolding without_zeros
trimmed_parts [] = ok []
trimmed_parts (part ∷ parts) =
    let rest = trimmed_parts parts in
    if len part == 0 || ltb 4 (len part)
    then err IpV6CompressError.invalid_uncompressed_v6_value
    else elim rest [ err e ↦ err e | ok later ↦ ok (without_zeros part ∷ later) ]

unfoldable pub is_zero : Text → Bool
is_zero (x ∷ []) = x == nought
is_zero part = false

-- `most_zeroes` and `double_colon_index`, where `none` is -1.
pub record Found : Type 0 where
  pub most_zeroes : ℕ
  pub double_colon_index : Option ℕ

-- The second loop, over whether each part is zero, from the part `i` on.
unfoldable pub scan : List Bool → (i zero_count : ℕ) → Found → Found
scan [] i zero_count found = found
scan (false ∷ parts) i zero_count found = scan parts (suc i) 0 found
scan (true ∷ parts) i zero_count found =
    let count = suc zero_count in
    let first : Found = record { most_zeroes = count; double_colon_index = some (suc i - count) } in
    scan parts (suc i) count (if ltb found.most_zeroes count then first else found)

-- The removal of the zeros but one, which is cleared.
unfoldable pub removed : Found → List Text → List Text
removed found parts = elim found.double_colon_index [
  | none ↦ parts
  | some index ↦
      if ltb 1 found.most_zeroes
      then take index parts ++ [] ∷ drop (index + found.most_zeroes) parts
      else parts
]

-- The empty parts at the ends, and `join`.
unfoldable pub recombined : Option ℕ → List Text → Text
unfolding join
recombined index ([] ∷ []) = colon ∷ colon ∷ []
recombined none parts = join colon parts
recombined (some index) parts =
    if index == 0
    then join colon ([] ∷ parts)
    else if index == length parts - 1
    then join colon (parts ++ [] ∷ [])
    else join colon parts

-- `!part.is_empty()` of the second loop.
unfoldable pub has_empty : List Text → Bool
has_empty [] = false
has_empty (part ∷ parts) = len part == 0 || has_empty parts

unfoldable pub compressed : Result (List Text) IpV6CompressError → Result (Text) IpV6CompressError
unfolding scan removed recombined is_zero has_empty
compressed (err e) = err e
compressed (ok parts) =
    let found =
      scan (map is_zero parts) 0 0 (record { most_zeroes = 0; double_colon_index = none }) in
    if has_empty parts
    then err IpV6CompressError.invalid_uncompressed_v6_value
    else ok (recombined found.double_colon_index (removed found parts))

unfoldable pub compress_v6 : Text → Result Text IpV6CompressError
unfolding split trimmed_parts compressed
compress_v6 addr =
    let parts = map trim (split colon addr) in
    if length parts == 8
    then compressed (trimmed_parts parts)
    else err IpV6CompressError.invalid_uncompressed_v6_format
