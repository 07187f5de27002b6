-- ===== src/Base/Queues.antt =====
-- The interface of an unbounded first-in first-out queue: what the crate uses of
-- `crossbeam_queue::SegQueue` and of a FIFO `crossbeam_deque::Worker`. Each operation is one atomic
-- step; `contents` lists a queue from its oldest entry.
use mathlib.Core.Path.{◌≡◌, refl}
use mathlib.Core.Logic.{◌⊎◌, inl, inr}
use mathlib.Core.Option
use mathlib.Core.Option.{Option, none, some}
use mathlib.Core.List.{List, [], ◌∷◌, ◌++◌}

-- The oldest entry of a list, and the rest.
abbrev pub front {ℓ} : {A : Type ℓ} → List A → Option (A × List A)
front [] = none
front (x ∷ xs) = some (x, xs)

pub record Fifo (A : Type 0) : Type 1 where
  pub Queue : Type 0
  pub empty : Queue
  pub push : Queue → A → Queue
  pub pop : Queue → Option (A × Queue)
  pub contents : Queue → List A
  pub contents-empty : contents empty ≡ []
  pub contents-push : (q : Queue) (a : A) → contents (push q a) ≡ contents q ++ a ∷ []
  pub contents-pop :
      (q : Queue) → Option.map (λ r. (r.0, contents r.1)) (pop q) ≡ front (contents q)

-- What a pop does to the contents, by cases.
pub pop_cases :
    {A : Type 0} (W : Fifo A) (q : W.Queue)
    → ((W.pop q ≡ none) × (W.contents q ≡ []))
      ⊎ ((a : A) × (r : W.Queue) × (W.pop q ≡ some (a, r)) × (W.contents q ≡ a ∷ W.contents r))
pop_cases W q = by_cases (W.pop q) (W.contents q) refl (W.contents-pop q)
  where
    by_cases :
        (o : Option (_ × W.Queue)) (xs : List _)
        → W.pop q ≡ o
        → Option.map (λ r. (r.0, W.contents r.1)) o ≡ front xs
        → ((o ≡ none) × (xs ≡ []))
          ⊎ ((a : _) × (r : W.Queue) × (o ≡ some (a, r)) × (xs ≡ a ∷ W.contents r))
    by_cases none [] e h = inl (refl, refl)
    by_cases none (x ∷ xs) e h = cc
    by_cases (some r) [] e h = cc
    by_cases (some (a, r)) (x ∷ xs) e h = inr (a, r, refl, cc)

pub pop_list : {A : Type 0} (xs : List A) → Option.map (λ r. (r.0, r.1)) (front xs) ≡ front xs
pop_list [] = refl
pop_list (x ∷ xs) = refl

-- Lists implement the interface.
abbrev pub list_fifo : (A : Type 0) → Fifo A
list_fifo A = record {
  Queue = List A;
  empty = [];
  push = λ q a. q ++ a ∷ [];
  pop = front;
  contents = λ q. q;
  contents-empty = refl;
  contents-push = λ q a. refl;
  contents-pop = pop_list;
}
