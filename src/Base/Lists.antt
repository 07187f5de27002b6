-- ===== src/Base/Lists.antt =====
-- Lists measured, indexed and summed by native numbers, under the library's names.
use Prim.Native.Nat.{ℕ, zero, suc, ◌+◌, ◌-◌, ◌≤◌}
use mathlib.Core.Path.{◌≡◌, refl, ap, subst}
use mathlib.Core.Logic.{◌≢◌}
use mathlib.Core.List.{List, [], ◌∷◌, ◌++◌}
use mathlib.Core.Option.{Option, none, some, some-injective}
use native.Mathlib.Omega.{arith}
use mathlib.Core.Bool.{Bool, false, ◌||◌}
use cl_async.Base.Tests.{◌==◌}

module _ {ℓ} {A : Type ℓ} where
  abbrev pub length : List A → ℕ
  length [] = 0
  length (x ∷ xs) = suc (length xs)

  abbrev pub get_elem? : List A → ℕ → Option A
  get_elem? [] i = none
  get_elem? (x ∷ xs) zero = some x
  get_elem? (x ∷ xs) (suc i) = get_elem? xs i

  abbrev pub set : List A → ℕ → A → List A
  set [] i v = []
  set (x ∷ xs) zero v = v ∷ xs
  set (x ∷ xs) (suc i) v = x ∷ set xs i v

  pub length-append : (xs ys : List A) → length (xs ++ ys) ≡ length xs + length ys
  length-append [] ys = omega arith
  length-append (x ∷ xs) ys = omega (arith, length-append xs ys)

  -- The sum of a weight over a list.
  abbrev pub sum_of : (A → ℕ) → List A → ℕ
  sum_of w [] = 0
  sum_of w (x ∷ xs) = w x + sum_of w xs

  pub sum_of-set :
      (w : A → ℕ) (xs : List A) (i : ℕ) (a b : A)
      → get_elem? xs i ≡ some a
      → sum_of w (set xs i b) + w a ≡ sum_of w xs + w b
  sum_of-set w [] i a b e = ground arith
  sum_of-set w (x ∷ xs) zero a b e = ground arith
  sum_of-set w (x ∷ xs) (suc i) a b e = omega (arith, sum_of-set w xs i a b e)

  pub get_elem?-le-sum_of :
      (w : A → ℕ) (xs : List A) (i : ℕ) (a : A) → get_elem? xs i ≡ some a → w a ≤ sum_of w xs
  get_elem?-le-sum_of w [] i a e = ground arith
  get_elem?-le-sum_of w (x ∷ xs) zero a e = ground arith
  get_elem?-le-sum_of w (x ∷ xs) (suc i) a e = omega (arith, get_elem?-le-sum_of w xs i a e)

  -- Two entries at different places weigh at most as much as the list.
  pub two-le-sum_of :
      (w : A → ℕ) (xs : List A) (i j : ℕ) (a b : A)
      → i ≢ j
      → get_elem? xs i ≡ some a
      → get_elem? xs j ≡ some b
      → w a + w b ≤ sum_of w xs
  two-le-sum_of w [] i j a b ne e k = ground arith
  two-le-sum_of w (x ∷ xs) zero zero a b ne e k = absurd (ne refl)
  two-le-sum_of w (x ∷ xs) zero (suc j) a b ne e k = ground (arith, get_elem?-le-sum_of w xs j b k)
  two-le-sum_of w (x ∷ xs) (suc i) zero a b ne e k = ground (arith, get_elem?-le-sum_of w xs i a e)
  two-le-sum_of w (x ∷ xs) (suc i) (suc j) a b ne e k =
      omega (arith, two-le-sum_of w xs i j a b (λ h. ne (ap suc h)) e k)

  abbrev pub take : ℕ → List A → List A
  take zero xs = []
  take (suc n) [] = []
  take (suc n) (x ∷ xs) = x ∷ take n xs

  abbrev pub drop : ℕ → List A → List A
  drop zero xs = xs
  drop (suc n) [] = []
  drop (suc n) (x ∷ xs) = drop n xs

  pub drop-append : (xs ys : List A) → drop (length xs) (xs ++ ys) ≡ ys
  drop-append [] ys = refl
  drop-append (x ∷ xs) ys = drop-append xs ys

  pub length-drop : (n : ℕ) (xs : List A) → length (drop n xs) ≡ length xs - n
  length-drop zero xs = omega arith
  length-drop (suc n) [] = omega arith
  length-drop (suc n) (x ∷ xs) = omega (arith, length-drop n xs)

-- A predicate of every entry, which computes to a tuple.
abbrev pub All {ℓ κ} : {A : Type ℓ} → (A → Type κ) → List A → Type κ
All P [] = Unit
All P (x ∷ xs) = P x × All P xs

module _ {ℓ κ} {A : Type ℓ} (P : A → Type κ) where
  pub All-set : (xs : List A) (i : ℕ) (b : A) → All P xs → P b → All P (set xs i b)
  All-set [] i b h k = tt
  All-set (x ∷ xs) zero b h k = (k, h.1)
  All-set (x ∷ xs) (suc i) b h k = (h.0, All-set xs i b h.1 k)

  pub All-get_elem? : (xs : List A) (i : ℕ) {a : A} → All P xs → get_elem? xs i ≡ some a → P a
  All-get_elem? [] i h e = cc
  All-get_elem? (x ∷ xs) zero {a} h e = subst P (some-injective x a e) h.0
  All-get_elem? (x ∷ xs) (suc i) h e = All-get_elem? xs i h.1 e

abbrev pub contains : ℕ → List ℕ → Bool
contains i [] = false
contains i (x ∷ xs) = i == x || contains i xs

pub contains-snoc : (i a : ℕ) (xs : List ℕ) → contains i (xs ++ a ∷ []) ≡ (contains i xs || i == a)
contains-snoc i a [] = ground arith
contains-snoc i a (x ∷ xs) = ground (arith, contains-snoc i a xs)
