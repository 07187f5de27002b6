-- ===== src/Net/Address/Text/Search.antt =====
-- src/net/address.rs: texts that are searched for a character or for a pair of colons.
use cl_async.Base.{
  ℕ, ◌≡◌, ◌≢◌, refl, ◌∙◌, ◌==◌, true, false, Bool-cases, inl, inr, List, [], ◌∷◌, ◌++◌, All, arith,
}
use cl_async.Net.Address.Text.{Text, join, starts_with, includes}
use cl_async.Net.Address.Text.Pieces.{Lacks}

pub includes-Lacks : (c : ℕ) (s : Text) → Lacks c s → includes (c ∷ []) s ≡ false
unfolding includes
includes-Lacks c [] h = refl
includes-Lacks c (x ∷ s) h =
    let other : (c == x) ≡ false = ground (arith, h.0) in rw (other, includes-Lacks c s h.1) refl

pub includes-append : (c : ℕ) (s t : Text) → includes (c ∷ []) (s ++ c ∷ t) ≡ true
unfolding includes
includes-append c [] t = let same : (c == c) ≡ true = ground arith in rw same refl
includes-append c (x ∷ s) t = elim (Bool-cases (c == x)) [
  | inl same ↦ rw same refl
  | inr other ↦ rw other (includes-append c s t)
]

pub includes-pair : (c : ℕ) (s t : Text) → includes (c ∷ c ∷ []) (s ++ c ∷ c ∷ t) ≡ true
unfolding includes
includes-pair c [] t = let same : (c == c) ≡ true = ground arith in rw same refl
includes-pair c (x ∷ s) t = elim (Bool-cases (starts_with (c ∷ c ∷ []) (x ∷ s ++ c ∷ c ∷ t))) [
  | inl found ↦ rw found refl
  | inr other ↦ rw other (includes-pair c s t)
]

includes-cons : (p : Text) (x : ℕ) (s : Text) → includes p s ≡ true → includes p (x ∷ s) ≡ true
unfolding includes
includes-cons p x s h = ground (arith, h)

-- What a text includes, a longer one includes too.
includes-append_pair :
    (c : ℕ) (p s : Text)
    → includes (c ∷ c ∷ []) s ≡ true
    → includes (c ∷ c ∷ []) (p ++ c ∷ s) ≡ true
includes-append_pair c [] s h = includes-cons (c ∷ c ∷ []) c s h
includes-append_pair c (x ∷ p) s h =
    includes-cons (c ∷ c ∷ []) x (p ++ c ∷ s) (includes-append_pair c p s h)

abbrev pub IsFilled : Text → Type 0
IsFilled [] = ⊥
IsFilled (x ∷ s) = Unit

includes-pair_one : (c : ℕ) (part : Text) → Lacks c part → includes (c ∷ c ∷ []) part ≡ false
unfolding includes
includes-pair_one c [] h = refl
includes-pair_one c (x ∷ part) h =
    let other : (c == x) ≡ false = ground (arith, h.0) in
    rw (other, includes-pair_one c part h.1) refl

pub includes-pair_next :
    (c : ℕ) (part : Text) (y : ℕ) (t : Text)
    → Lacks c part
    → y ≢ c
    → includes (c ∷ c ∷ []) (part ++ c ∷ y ∷ t) ≡ includes (c ∷ c ∷ []) (y ∷ t)
unfolding includes
includes-pair_next c [] y t h ne =
    let same : (c == c) ≡ true = ground arith in
    let other : (c == y) ≡ false = ground arith in rw (same, other) refl
includes-pair_next c (x ∷ part) y t h ne =
    let other : (c == x) ≡ false = ground (arith, h.0) in
    rw other (includes-pair_next c part y t h.1 ne)

-- Filled parts that are joined hold no pair of the character between them.
pub includes-pair_join :
    (c : ℕ) (parts : List Text)
    → All (Lacks c) parts
    → All IsFilled parts
    → includes (c ∷ c ∷ []) (join c parts) ≡ false
unfolding join
includes-pair_join c [] h f = includes-pair_one c [] tt
includes-pair_join c (part ∷ []) h f = includes-pair_one c part h.0
includes-pair_join c (part ∷ [] ∷ parts) h f = elim f.1.0 [ ]
includes-pair_join c (part ∷ (y ∷ next) ∷ []) h f =
    includes-pair_next c part y next h.0 h.1.0.0 ∙ includes-pair_join c ((y ∷ next) ∷ []) h.1 f.1
includes-pair_join c (part ∷ (y ∷ next) ∷ other ∷ parts) h f =
    includes-pair_next c part y (next ++ c ∷ join c (other ∷ parts)) h.0 h.1.0.0
    ∙ includes-pair_join c ((y ∷ next) ∷ other ∷ parts) h.1 f.1

-- An empty part between others gives such a pair.
pub includes-pair_gap :
    (c : ℕ) (p : Text) (before : List Text) (q : Text) (behind : List Text)
    → includes (c ∷ c ∷ []) (join c ((p ∷ before) ++ [] ∷ q ∷ behind)) ≡ true
unfolding join
includes-pair_gap c p [] q behind = includes-pair c p (join c (q ∷ behind))
includes-pair_gap c p (next ∷ before) q behind =
    includes-append_pair c p (join c ((next ∷ before) ++ [] ∷ q ∷ behind))
      (includes-pair_gap c next before q behind)
