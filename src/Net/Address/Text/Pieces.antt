-- ===== src/Net/Address/Text/Pieces.antt =====
-- src/net/address.rs: texts that are split at a character, joined and searched.
use cl_async.Base.{
  ℕ, suc, ◌+◌, ◌<◌, ◌≡◌, ◌≢◌, refl, ap, ◌∙◌, ◌==◌, true, false, Bool-cases, inl, inr, List, [], ◌∷◌,
  ◌++◌, map, All, length, arith,
}
use cl_async.Net.Address.Text.{Text, is_whitespace, trim, split, join, trim_start, trim_end, count}

-- A text without the character `c`.
abbrev pub Lacks : ℕ → Text → Type 0
Lacks c = All (λ x. x ≢ c)

split-cons : (c : ℕ) (s : Text) → (part : Text) × (parts : List Text) × (split c s ≡ part ∷ parts)
unfolding split
split-cons c [] = ([], [], refl)
split-cons c (x ∷ s) =
    let (part, parts, e) = split-cons c s in
    elim (Bool-cases (x == c)) [
      | inl same ↦ ([], part ∷ parts, rw (e, same) refl)
      | inr other ↦ (x ∷ part, parts, rw (e, other) refl)
    ]

pub split-Lacks : (c : ℕ) (s : Text) → Lacks c s → split c s ≡ s ∷ []
unfolding split
split-Lacks c [] h = refl
split-Lacks c (x ∷ s) h =
    let other : (x == c) ≡ false = ground (arith, h.0) in rw (split-Lacks c s h.1, other) refl

pub split-append : (c : ℕ) (s t : Text) → Lacks c s → split c (s ++ c ∷ t) ≡ s ∷ split c t
unfolding split
split-append c [] t h =
    let (part, parts, e) = split-cons c t in
    let same : (c == c) ≡ true = ground arith in rw (e, same) refl
split-append c (x ∷ s) t h =
    let other : (x == c) ≡ false = ground (arith, h.0) in rw (split-append c s t h.1, other) refl

pub split-join :
    (c : ℕ) (part : Text) (parts : List Text)
    → All (Lacks c) (part ∷ parts)
    → split c (join c (part ∷ parts)) ≡ part ∷ parts
unfolding join
split-join c part [] h = split-Lacks c part h.0
split-join c part (next ∷ parts) h =
    split-append c part (join c (next ∷ parts)) h.0
    ∙ ap (λ l. part ∷ l) (split-join c next parts h.1)

pub count-Lacks : (c : ℕ) (s : Text) → Lacks c s → count c s ≡ 0
unfolding count
count-Lacks c [] h = refl
count-Lacks c (x ∷ s) h = ground (arith, h.0, count-Lacks c s h.1)

count-append : (c : ℕ) (s t : Text) → count c (s ++ t) ≡ count c s + count c t
unfolding count
count-append c [] t = omega arith
count-append c (x ∷ s) t = omega (arith, count-append c s t)

pub count-join :
    (c : ℕ) (part : Text) (parts : List Text)
    → All (Lacks c) (part ∷ parts)
    → count c (join c (part ∷ parts)) ≡ length parts
unfolding join count
count-join c part [] h = count-Lacks c part h.0
count-join c part (next ∷ parts) h =
    let same : count c (c ∷ join c (next ∷ parts)) ≡ suc (count c (join c (next ∷ parts))) =
      ground arith in
    omega (
      arith,
      count-append c part (c ∷ join c (next ∷ parts)),
      count-Lacks c part h.0,
      same,
      count-join c next parts h.1,
    )

-- Characters of ASCII that are no space.
abbrev pub IsVisible : ℕ → Type 0
IsVisible c = (32 < c) × (c < 128)

is_whitespace-IsVisible : (c : ℕ) → IsVisible c → is_whitespace c ≡ false
unfolding is_whitespace
is_whitespace-IsVisible c h = ground arith

trim_start-IsVisible : (s : Text) → All IsVisible s → trim_start s ≡ s
unfolding trim_start
trim_start-IsVisible [] h = refl
trim_start-IsVisible (x ∷ s) h = rw (is_whitespace-IsVisible x h.0) refl

trim_end-IsVisible : (s : Text) → All IsVisible s → trim_end s ≡ s
unfolding trim_end
trim_end-IsVisible [] h = refl
trim_end-IsVisible (x ∷ []) h = rw (is_whitespace-IsVisible x h.0) refl
trim_end-IsVisible (x ∷ y ∷ s) h = rw (trim_end-IsVisible (y ∷ s) h.1) refl

pub trim-IsVisible : (s : Text) → All IsVisible s → trim s ≡ s
unfolding trim
trim-IsVisible s h = ap trim_end (trim_start-IsVisible s h) ∙ trim_end-IsVisible s h

pub trim_each-IsVisible : (parts : List Text) → All (All IsVisible) parts → map trim parts ≡ parts
trim_each-IsVisible [] h = refl
trim_each-IsVisible (part ∷ parts) h =
    ap (λ p. p ∷ map trim parts) (trim-IsVisible part h.0)
    ∙ ap (λ l. part ∷ l) (trim_each-IsVisible parts h.1)

pub All-append {ℓ κ} :
    {A : Type ℓ} (P : A → Type κ) (s t : List A) → All P s → All P t → All P (s ++ t)
All-append P [] t h k = k
All-append P (x ∷ s) t h k = (h.0, All-append P s t h.1 k)

-- What holds of the parts and of the character between them holds of the whole.
pub All-join {κ} :
    (P : ℕ → Type κ) (c : ℕ) (parts : List Text) → P c → All (All P) parts → All P (join c parts)
unfolding join
All-join P c [] k h = tt
All-join P c (part ∷ []) k h = h.0
All-join P c (part ∷ next ∷ parts) k h =
    All-append P part (c ∷ join c (next ∷ parts)) h.0 (k, All-join P c (next ∷ parts) k h.1)

pub All-weaken {κ} : (P Q : ℕ → Type κ) (s : Text) → ((x : ℕ) → P x → Q x) → All P s → All Q s
All-weaken P Q [] f h = tt
All-weaken P Q (x ∷ s) f h = (f x h.0, All-weaken P Q s f h.1)
