-- ===== src/Net/Address/Compress/Runs.antt =====
-- src/net/address.rs: the run of zeros that `compress_v6` finds.
use cl_async.Base.{
  ℕ, zero, suc, ◌+◌, ◌-◌, ◌≤◌, ◌<◌, ◌≡◌, refl, sym, ap, ◌∙◌, max, ltb, Bool, Bool-cases, true,
  false, inl, inr, Option, none, some, List, [], ◌∷◌, map, ok, drop, arith,
}
use cl_async.Net.Address.Text.{join}
use cl_async.Net.Address.Compress.{Found, scan, is_zero, removed, recombined, has_empty, compressed}

-- The zeros at the front of a list, and the longest run of zeros in it.
abbrev pub leading : List Bool → ℕ
leading [] = 0
leading (false ∷ parts) = 0
leading (true ∷ parts) = suc (leading parts)

abbrev pub longest : List Bool → ℕ
longest [] = 0
longest (part ∷ parts) = max (leading (part ∷ parts)) (longest parts)

leading-le : (parts : List Bool) → leading parts ≤ longest parts
leading-le [] = omega arith
leading-le (part ∷ parts) = omega arith

leading-drop : (s : ℕ) (parts : List Bool) → leading (drop s parts) ≤ longest parts
leading-drop zero parts = leading-le parts
leading-drop (suc s) [] = omega arith
leading-drop (suc s) (part ∷ parts) = omega (arith, leading-drop s parts)

-- A run of zeros, then the rest.
abbrev zeros_then : ℕ → List Bool → List Bool
zeros_then zero parts = parts
zeros_then (suc n) parts = true ∷ zeros_then n parts

leading-zeros_then : (n : ℕ) (parts : List Bool) → leading (zeros_then n parts) ≡ n + leading parts
leading-zeros_then zero parts = omega arith
leading-zeros_then (suc n) parts = omega (arith, leading-zeros_then n parts)

zeros_then-next :
    (n : ℕ) (parts : List Bool) → zeros_then n (true ∷ parts) ≡ zeros_then (suc n) parts
zeros_then-next zero parts = refl
zeros_then-next (suc n) parts = ap (λ l. true ∷ l) (zeros_then-next n parts)

scan-most :
    (parts : List Bool) (i count : ℕ) (found : Found)
    → count ≤ found.most_zeroes
    → (scan parts i count found).most_zeroes
      ≡ max found.most_zeroes (max (count + leading parts) (longest parts))
unfolding scan
scan-most [] i count found h = omega arith
scan-most (false ∷ parts) i count found h =
    scan-most parts (suc i) 0 found (omega arith) ∙ omega (arith, leading-le parts)
scan-most (true ∷ parts) i count found h = elim (Bool-cases (ltb found.most_zeroes (suc count))) [
  | inl more ↦
      let first : Found = record {
        most_zeroes = suc count;
        double_colon_index = some (suc i - suc count);
      } in
      let longer : found.most_zeroes < suc count = ground arith in
      rw (more, scan) (scan-most parts (suc i) (suc count) first (omega arith) ∙ omega arith)
  | inr as_many ↦
      let shorter : suc count ≤ found.most_zeroes = ground arith in
      rw (as_many, scan) (scan-most parts (suc i) (suc count) found shorter ∙ omega arith)
]

-- The index is that of a run as long as `most_zeroes`.
abbrev pub IsRunAt : List Bool → Option ℕ → ℕ → Type 0
IsRunAt full none most = most ≡ 0
IsRunAt full (some s) most = (0 < most) × (most ≤ leading (drop s full))

drop-suc :
    (n : ℕ) (full : List Bool) (part : Bool) (parts : List Bool)
    → drop n full ≡ part ∷ parts
    → drop (suc n) full ≡ parts
drop-suc zero [] part parts e = cc
drop-suc zero (x ∷ full) part parts e = cc
drop-suc (suc n) [] part parts e = cc
drop-suc (suc n) (x ∷ full) part parts e = drop-suc n full part parts e

drop-zeros :
    (count n : ℕ) (full : List Bool) (parts : List Bool)
    → drop n full ≡ zeros_then count parts
    → drop (n + count) full ≡ parts
drop-zeros zero n full parts e = ap (λ k. drop k full) (omega arith) ∙ e
drop-zeros (suc count) n full parts e =
    ap (λ k. drop k full) (omega arith)
    ∙ drop-zeros count (suc n) full parts (drop-suc n full true (zeros_then count parts) e)

scan-IsRunAt :
    (full parts : List Bool) (i count : ℕ) (found : Found)
    → count ≤ i
    → drop (i - count) full ≡ zeros_then count parts
    → IsRunAt full found.double_colon_index found.most_zeroes
    → let r = scan parts i count found in IsRunAt full r.double_colon_index r.most_zeroes
unfolding scan
scan-IsRunAt full [] i count found le here run = run
scan-IsRunAt full (false ∷ parts) i count found le here run =
    let there : drop i full ≡ false ∷ parts =
      ap (λ k. drop k full) (omega arith)
      ∙ drop-zeros count (i - count) full (false ∷ parts) here in
    scan-IsRunAt full parts (suc i) 0 found (omega arith)
      (ap (λ k. drop k full) {y = suc i} (omega arith) ∙ drop-suc i full false parts there) run
scan-IsRunAt full (true ∷ parts) i count found le here run =
    let start : suc i - suc count ≡ i - count = omega arith in
    let next : drop (suc i - suc count) full ≡ zeros_then (suc count) parts =
      ap (λ k. drop k full) start ∙ here ∙ zeros_then-next count parts in
    let long : leading (drop (suc i - suc count) full) ≡ suc count + leading parts =
      ap leading next ∙ leading-zeros_then (suc count) parts in
    elim (Bool-cases (ltb found.most_zeroes (suc count))) [
      | inl more ↦
          rw (more, scan)
            (scan-IsRunAt full parts (suc i) (suc count)
              (record { most_zeroes = suc count; double_colon_index = some (suc i - suc count) })
              (omega arith) next (omega (arith, long)))
      | inr as_many ↦
          rw (as_many, scan)
            (scan-IsRunAt full parts (suc i) (suc count) found (omega arith) next run)
    ]

abbrev pub nothing_found : Found
nothing_found = record { most_zeroes = 0; double_colon_index = none }

-- The index found is that of a longest run of zeros, of `most_zeroes` parts; without zeros there is none.
abbrev pub IsLongest : List Bool → Option ℕ → ℕ → Type 0
IsLongest parts none most = (most ≡ 0) × (longest parts ≡ 0)
IsLongest parts (some s) most =
    (0 < most) × (most ≡ longest parts) × (leading (drop s parts) ≡ longest parts)

longest_run :
    (parts : List Bool) (index : Option ℕ) (most : ℕ)
    → most ≡ longest parts
    → IsRunAt parts index most
    → IsLongest parts index most
longest_run parts none most e run = (run, omega arith)
longest_run parts (some s) most e run = (run.0, e, omega (arith, leading-drop s parts, run.1))

pub scan-IsLongest :
    (parts : List Bool)
    → let r = scan parts 0 0 nothing_found in IsLongest parts r.double_colon_index r.most_zeroes
scan-IsLongest parts =
    let r = scan parts 0 0 nothing_found in
    longest_run parts r.double_colon_index r.most_zeroes
      (scan-most parts 0 0 nothing_found (omega arith) ∙ omega (arith, leading-le parts))
      (scan-IsRunAt parts parts 0 0 nothing_found (omega arith) refl refl)

-- Once no later run is longer, the scan keeps what it found.
scan-same :
    (parts : List Bool) (i count : ℕ) (found : Found)
    → count ≤ found.most_zeroes
    → count + leading parts ≤ found.most_zeroes
    → longest parts ≤ found.most_zeroes
    → scan parts i count found ≡ found
unfolding scan
scan-same [] i count found h short rest = refl
scan-same (false ∷ parts) i count found h short rest =
    scan-same parts (suc i) 0 found (omega arith) (omega (arith, leading-le parts)) (omega arith)
scan-same (true ∷ parts) i count found h short rest =
    let as_many : ltb found.most_zeroes (suc count) ≡ false = ground arith in
    rw (as_many, scan)
      (scan-same parts (suc i) (suc count) found (omega arith) (omega arith) (omega arith))

-- An address without empty parts that starts with a zero and has no two zeros side by side is given an empty part in front: its
-- text starts with a single colon.
pub compressed-lone_zero :
    (p q : List ℕ) (ps : List (List ℕ))
    → has_empty (p ∷ q ∷ ps) ≡ false
    → is_zero p ≡ true
    → longest (map is_zero (p ∷ q ∷ ps)) ≡ 1
    → compressed (ok (p ∷ q ∷ ps)) ≡ ok (58 ∷ join 58 (p ∷ q ∷ ps))
unfolding compressed removed recombined scan join
compressed-lone_zero [] q ps full first alone = cc
compressed-lone_zero (x ∷ p) q ps full first alone =
    let one : Found = record { most_zeroes = 1; double_colon_index = some 0 } in
    let zeros = map is_zero (q ∷ ps) in
    let some_zero : longest (true ∷ zeros) ≡ 1 =
      ap (λ b. longest (b ∷ zeros)) (sym first) ∙ alone in
    let kept : scan zeros 1 1 one ≡ one =
      scan-same zeros 1 1 one (omega arith) (omega arith) (omega arith) in
    rw (full, first, kept) refl
