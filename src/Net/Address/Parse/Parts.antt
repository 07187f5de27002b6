-- ===== src/Net/Address/Parse/Parts.antt =====
-- src/net/address.rs: the steps of `uncompress_v6` on parts with a gap between them.
use cl_async.Base.{
  ℕ, zero, suc, ◌+◌, ◌-◌, ◌≤◌, ◌≡◌, refl, ap, ◌∙◌, ltb, false, Option, some, none, ok, List, [],
  ◌∷◌, ◌++◌, map, take, drop, All, length, length-append, arith,
}
use cl_async.Net.Address.Text.{Text, join, colon, len}
use cl_async.Net.Address.Text.Digits.{IsPlain}
use cl_async.Net.Address.Text.Search.{IsFilled}
use cl_async.Net.Address.Compress.Gap.{ends}
use cl_async.Net.Address.Parse.{
  padded, without_first_empty, without_last_empty, pad_each, and_part, zero_part, zero_parts,
  recombined_parts,
}

pub without_first_empty-ends :
    (parts others : List Text)
    → All IsFilled parts
    → without_first_empty (ends parts ++ others) ≡ parts ++ others
unfolding without_first_empty
without_first_empty-ends [] others h = refl
without_first_empty-ends ([] ∷ parts) others h = elim h.0 [ ]
without_first_empty-ends ((x ∷ s) ∷ parts) others h = refl

without_last_empty-filled :
    (part : Text) (parts : List Text)
    → All IsFilled (part ∷ parts)
    → without_last_empty (part ∷ parts) ≡ part ∷ parts
unfolding without_last_empty
without_last_empty-filled [] parts h = elim h.0 [ ]
without_last_empty-filled (x ∷ s) [] h = refl
without_last_empty-filled (x ∷ s) (next ∷ parts) h =
    ap (λ l. (x ∷ s) ∷ l) (without_last_empty-filled next parts h.1)

pub without_last_empty-ends :
    (parts behind : List Text)
    → All IsFilled parts
    → All IsFilled behind
    → without_last_empty (parts ++ [] ∷ ends behind) ≡ parts ++ [] ∷ behind
unfolding without_last_empty
without_last_empty-ends [] [] h k = refl
without_last_empty-ends [] (q ∷ behind) h k =
    ap (λ l. [] ∷ l) (without_last_empty-filled q behind k)
without_last_empty-ends ([] ∷ parts) behind h k = elim h.0 [ ]
without_last_empty-ends ((x ∷ s) ∷ []) behind h k =
    ap (λ l. (x ∷ s) ∷ l) (without_last_empty-ends [] behind tt k)
without_last_empty-ends ((x ∷ s) ∷ next ∷ parts) behind h k =
    ap (λ l. (x ∷ s) ∷ l) (without_last_empty-ends (next ∷ parts) behind h.1 k)

-- The groups of an address.
abbrev pub IsGroup : Text → Type 0
IsGroup s = All IsPlain s × IsFilled s × (len s ≤ 4)

pad_each-groups :
    (parts : List Text) (i : ℕ) (index : Option ℕ)
    → All IsGroup parts
    → pad_each parts i index ≡ ok (map padded parts, index)
unfolding pad_each
pad_each-groups [] i index h = refl
pad_each-groups ([] ∷ parts) i index h = elim h.0.1 [ ]
pad_each-groups ((x ∷ s) ∷ parts) i index h =
    let fits : ltb 4 (len (x ∷ s)) ≡ false = ground (arith, h.0.2) in
    rw (fits, pad_each-groups parts (suc i) index h.1) refl

pub pad_each-gap :
    (parts behind : List Text) (i : ℕ)
    → All IsGroup parts
    → All IsGroup behind
    → pad_each (parts ++ [] ∷ behind) i none
      ≡ ok (map padded parts ++ [] ∷ map padded behind, some (i + length parts))
unfolding pad_each
pad_each-gap [] behind i h k =
    let e : i ≡ i + 0 = omega arith in
    ap (and_part []) (pad_each-groups behind (suc i) (some i) k)
    ∙ ap (λ j. ok ([] ∷ map padded behind, some j)) e
pad_each-gap ([] ∷ parts) behind i h k = elim h.0.1 [ ]
pad_each-gap ((x ∷ s) ∷ parts) behind i h k =
    let fits : ltb 4 (len (x ∷ s)) ≡ false = ground (arith, h.0.2) in
    let e : suc i + length parts ≡ i + suc (length parts) = omega arith in
    rw (fits, pad_each-gap parts behind (suc i) h.1 k)
      (ap (λ j. ok (padded (x ∷ s) ∷ (map padded parts ++ [] ∷ map padded behind), some j)) e)

take-append : (xs ys : List Text) → take (length xs) (xs ++ ys) ≡ xs
take-append [] ys = refl
take-append (x ∷ xs) ys = ap (λ l. x ∷ l) (take-append xs ys)

drop-suc_append :
    (xs : List Text) (y : Text) (ys : List Text) → drop (suc (length xs)) (xs ++ y ∷ ys) ≡ ys
drop-suc_append [] y ys = refl
drop-suc_append (x ∷ xs) y ys = drop-suc_append xs y ys

zero_parts-next :
    (n : ℕ) (parts : List Text) → zero_parts n (zero_part ∷ parts) ≡ zero_parts (suc n) parts
unfolding zero_parts
zero_parts-next zero parts = refl
zero_parts-next (suc n) parts = ap (λ l. zero_part ∷ l) (zero_parts-next n parts)

pub recombined_parts-gap :
    (parts behind : List Text) (m : ℕ)
    → length parts + suc m + length behind ≡ 8
    → recombined_parts (parts ++ [] ∷ behind) (some (length parts))
      ≡ ok (join colon (parts ++ zero_parts (suc m) behind))
unfolding recombined_parts
recombined_parts-gap parts behind m e =
    let missing : 8 - length (parts ++ [] ∷ behind) ≡ m =
      omega (arith, length-append parts ([] ∷ behind)) in
    rw
      (
        missing,
        take-append parts ([] ∷ behind),
        drop-suc_append parts [] behind,
        zero_parts-next m behind,
      )
      refl
