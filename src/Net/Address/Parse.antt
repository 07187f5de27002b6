-- ===== src/Net/Address/Parse.antt =====
-- src/net/address.rs: how a text is read as an `IpAddress`. An error leaves out the text that it quotes.
pub mod Parts
pub mod Uncompress
use cl_async.Base.{
  ℕ, zero, suc, ◌+◌, ◌-◌, ◌*◌, ◌/◌, ◌%◌, ◌==◌, ltb, leb, Bool, true, false, not, ◌&&◌, ◌||◌,
  if◌then◌else◌, Option, none, some, Result, ok, err, List, [], ◌∷◌, ◌++◌, length, map, take, drop,
}
use cl_async.Net.Address.{Bytes4, IpAddress}
use cl_async.Net.Address.Text.{
  Text, colon, dot, nought, len, trim, split, join, count, starts_with, includes, from_str_radix,
}
use cl_async.Net.Address.Display.{mapped_prefix}

pub data IpV4ParseError : Type 0 where
  invalid_v4_format invalid_v4_value : IpV4ParseError

pub data IpV6UncompressError : Type 0 where
  invalid_compressed_v6_format invalid_compressed_v6_value : IpV6UncompressError

pub data V4MappedV6Error : Type 0 where
  invalid_mapped_v6_format : V4MappedV6Error
  v4_parse_error : IpV4ParseError → V4MappedV6Error

-- `v4_bytes_from_str`: the loop over the parts, and the function.
unfoldable pub parse_parts : List Text → Result (List ℕ) IpV4ParseError
parse_parts [] = ok []
parse_parts (part ∷ parts) = elim (from_str_radix 10 256 part) [
  | none ↦ err IpV4ParseError.invalid_v4_value
  | some byte ↦ elim (parse_parts parts) [ err e ↦ err e | ok bytes ↦ ok (byte ∷ bytes) ]
]

unfoldable pub v4_bytes_from_str : Text → Result (List ℕ) IpV4ParseError
unfolding parse_parts
v4_bytes_from_str addr =
    let parts = split dot addr in
    if length parts == 4 then parse_parts parts else err IpV4ParseError.invalid_v4_format

-- `[u8; 4]` of four bytes.
unfoldable pub bytes4 : List ℕ → Bytes4
bytes4 (a ∷ b ∷ c ∷ d ∷ bytes) = record { b0 = a; b1 = b; b2 = c; b3 = d }
bytes4 bytes = record { b0 = 0; b1 = 0; b2 = 0; b3 = 0 }

unfoldable pub v4_from_str : Text → Result IpAddress IpV4ParseError
unfolding v4_bytes_from_str bytes4
v4_from_str addr = elim (v4_bytes_from_str addr) [
  | err e ↦ err e
  | ok bytes ↦ ok (IpAddress.v4 (bytes4 bytes))
]

abbrev pub colons : Text
colons = colon ∷ colon ∷ []

unfoldable pub is_compressed_v6 : Text → Bool
is_compressed_v6 addr = includes colons addr && leb (count colon addr) 7

unfoldable pub is_mapped_v6 : Text → Bool
is_mapped_v6 addr = starts_with mapped_prefix addr && includes (dot ∷ []) addr

unfoldable pub is_uncompressed_v6 : Text → Bool
is_uncompressed_v6 addr = count colon addr == 7 && not (includes colons addr)

unfoldable pub is_v6 : Text → Bool
unfolding is_compressed_v6 is_uncompressed_v6 is_mapped_v6
is_v6 addr = is_compressed_v6 addr || is_uncompressed_v6 addr || is_mapped_v6 addr

unfoldable pub is_v4 : Text → Bool
is_v4 addr = count dot addr == 3 && not (includes (colon ∷ []) addr)

-- The second part of `split_once`.
unfoldable pub after : Text → Text → Option Text
after p [] = if starts_with p [] then some (drop (length p) []) else none
after p (x ∷ s) = elim (starts_with p (x ∷ s)) [
  | true ↦ some (drop (length p) (x ∷ s))
  | false ↦ after p s
]

abbrev pub zeros_and_mark : List ℕ
zeros_and_mark = 0 ∷ 0 ∷ 0 ∷ 0 ∷ 0 ∷ 0 ∷ 0 ∷ 0 ∷ 0 ∷ 0 ∷ 255 ∷ 255 ∷ []

unfoldable pub parse_mapped_v6 : Text → Result IpAddress V4MappedV6Error
unfolding after v4_bytes_from_str
parse_mapped_v6 addr = elim (after mapped_prefix addr) [
  | none ↦ err V4MappedV6Error.invalid_mapped_v6_format
  | some v4_str ↦ elim (v4_bytes_from_str v4_str) [
    | err e ↦ err (V4MappedV6Error.v4_parse_error e)
    | ok v4_bytes ↦ ok (IpAddress.v6 (zeros_and_mark ++ v4_bytes))
  ]
]

-- `while part.len() < 4 { part.insert(0, '0') }`, a noughts at a time.
unfoldable pub noughts_then : ℕ → Text → Text
noughts_then zero part = part
noughts_then (suc n) part = nought ∷ noughts_then n part

unfoldable pub padded : Text → Text
unfolding noughts_then
padded part = noughts_then (4 - len part) part

unfoldable pub without_first_empty : List Text → List Text
without_first_empty ([] ∷ parts) = parts
without_first_empty parts = parts

unfoldable pub without_last_empty : List Text → List Text
without_last_empty [] = []
without_last_empty ([] ∷ []) = []
without_last_empty ((x ∷ s) ∷ []) = (x ∷ s) ∷ []
without_last_empty (part ∷ next ∷ parts) = part ∷ without_last_empty (next ∷ parts)

-- The loop over the parts from the index `i` on; `double_colon_index` is `none` for -1.
abbrev Scanned : Type 0
Scanned = Result (List Text × Option ℕ) IpV6UncompressError

abbrev pub and_part : Text → Scanned → Scanned
and_part part (err e) = err e
and_part part (ok (parts, index)) = ok (part ∷ parts, index)

unfoldable pub pad_each : List Text → ℕ → Option ℕ → Scanned
unfolding padded
pad_each [] i double_colon_index = ok ([], double_colon_index)
pad_each ([] ∷ parts) i none = and_part [] (pad_each parts (suc i) (some i))
pad_each ([] ∷ parts) i (some index) = err IpV6UncompressError.invalid_compressed_v6_value
pad_each ((x ∷ s) ∷ parts) i double_colon_index =
    let rest = pad_each parts (suc i) double_colon_index in
    if ltb 4 (len (x ∷ s))
    then err IpV6UncompressError.invalid_compressed_v6_value
    else and_part (padded (x ∷ s)) rest

abbrev pub zero_part : Text
zero_part = nought ∷ nought ∷ nought ∷ nought ∷ []

-- `n` zero parts, then the others.
unfoldable pub zero_parts : ℕ → List Text → List Text
zero_parts zero parts = parts
zero_parts (suc n) parts = zero_part ∷ zero_parts n parts

-- What follows the loop.
unfoldable pub recombined_parts : List Text → Option ℕ → Result Text IpV6UncompressError
unfolding zero_parts
recombined_parts parts none =
    if length parts == 8
    then ok (join colon parts)
    else err IpV6UncompressError.invalid_compressed_v6_format
recombined_parts parts (some index) = ok (
    join colon
      (take index parts ++ zero_parts (8 - length parts) (zero_part ∷ drop (suc index) parts)))

unfoldable pub rejoined : Scanned → Result Text IpV6UncompressError
rejoined (err e) = err e
rejoined (ok (parts, index)) = recombined_parts parts index

unfoldable pub uncompressed_parts : List Text → Result Text IpV6UncompressError
unfolding without_first_empty without_last_empty pad_each recombined_parts rejoined
uncompressed_parts parts =
    if ltb 9 (length parts) || ltb (length parts) 3
    then err IpV6UncompressError.invalid_compressed_v6_format
    else rejoined (pad_each (without_last_empty (without_first_empty parts)) 0 none)

unfoldable pub uncompress_v6 : Text → Result Text IpV6UncompressError
unfolding uncompressed_parts
uncompress_v6 addr = uncompressed_parts (map trim (split colon addr))

-- The loop of `uncompressed_v6_as_bytes`, and the function.
unfoldable pub bytes_of_parts : List Text → Result (List ℕ) IpV6UncompressError
bytes_of_parts [] = ok []
bytes_of_parts (part ∷ parts) = elim (from_str_radix 16 65536 part) [
  | none ↦ err IpV6UncompressError.invalid_compressed_v6_value
  | some word ↦ elim (bytes_of_parts parts) [
    | err e ↦ err e
    | ok bytes ↦ ok (word / 256 ∷ word % 256 ∷ bytes)
  ]
]

unfoldable pub uncompressed_v6_as_bytes : Text → Result (List ℕ) IpV6UncompressError
unfolding bytes_of_parts
uncompressed_v6_as_bytes addr =
    let parts = split colon addr in
    if length parts == 8
    then bytes_of_parts parts
    else err IpV6UncompressError.invalid_compressed_v6_format
