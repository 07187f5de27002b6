-- ===== src/Pool/RoundRobin.antt =====
-- src/pool.rs: the choice of a worker is sound, and it is found if there is one to find.
use native.Mathlib.Nat
use cl_async.Base.{
  ℕ, zero, suc, ◌+◌, ◌%◌, ◌≤◌, ◌<◌, ◌≡◌, refl, sym, ap, ◌∙◌, inl, inr, leb, leb→le, lt→ltb, subst,
  ==_iff, ◌==◌, ◌-◌, true, false, Bool-cases, Option-cases, Option, none, some, arith,
}
use cl_async.Pool.{
  WorkerState, state_byte, state_from, is_passed_over, next_worker_id, turns_from, get_next_worker,
}

-- A worker's state survives the byte in which it is kept.
state_from-state_byte : (s : WorkerState) → state_from (state_byte s) ≡ some s
unfolding state_from state_byte
state_from-state_byte WorkerState.fresh = refl
state_from-state_byte WorkerState.starting = refl
state_from-state_byte WorkerState.idle = refl
state_from-state_byte WorkerState.busy = refl
state_from-state_byte WorkerState.stopping = refl
state_from-state_byte WorkerState.stopped = refl

next_worker_id-lt : (n id : ℕ) → 0 < n → next_worker_id n id < n
unfolding next_worker_id
next_worker_id-lt n id pos = Nat.mod-lt id pos

-- As many draws in a row as there are workers give each worker its turn.
turn_of : (n c i : ℕ) → i < n → (t : ℕ) × (t < n) × (next_worker_id n (c + t) ≡ i)
unfolding next_worker_id
turn_of n c i h = elim (Bool-cases (leb (c % n) i)) [
  | inl before ↦
      let le : c % n ≤ i = leb→le (c % n) i before in
      let e : c % n + (i - c % n) ≡ i = omega arith in
      (
        i - c % n,
        omega arith,
        sym (Nat.mod-add-mod c n (i - c % n)) ∙ ap (λ k. k % n) e ∙ Nat.mod-eq_of_lt h,
      )
  | inr after ↦
      let gt : i < c % n = ground arith in
      let lt : c % n < n = Nat.mod-lt c (omega arith) in
      let e : c % n + (i + n - c % n) ≡ i + n = omega arith in
      (
        i + n - c % n,
        omega arith,
        sym (Nat.mod-add-mod c n (i + n - c % n))
            ∙ ap (λ k. k % n) e
            ∙ Nat.add-mod_right i n
            ∙ Nat.mod-eq_of_lt h,
      )
]

module _ (n : ℕ) (drawn : ℕ → ℕ) (state : ℕ → ℕ → WorkerState) where
  -- The worker that turn `t` looks at is passed over.
  abbrev IsPassed : ℕ → Type 0
  IsPassed t = is_passed_over (state t (next_worker_id n (drawn t))) ≡ true

  -- What a run of the loop from turn `t` on, over a full vector, comes to.
  abbrev Found : ℕ → ℕ → Option ℕ → Type 0
  Found left t none = (u : ℕ) → t ≤ u → u < t + left → IsPassed u
  Found left t (some i) =
      (i < n)
      × (u : ℕ) × (u < t + left)
      × (i ≡ next_worker_id n (drawn u))
      × (is_passed_over (state u i) ≡ false)

  later : (left t : ℕ) (o : Option ℕ) → IsPassed t → Found left (suc t) o → Found (suc left) t o
  later left t none passed all = λ u le lt. elim (Bool-cases (u == t)) [
    | inl same ↦ subst IsPassed (sym ((==_iff u t).0 same)) passed
    | inr other ↦ all u (ground arith) (omega arith)
  ]
  later left t (some i) passed (small, u, lt, e, p) = (small, u, omega arith, e, p)

  turns_from-Found : (left t : ℕ) → 0 < n → Found left t (turns_from n n drawn state left t)
  unfolding turns_from
  turns_from-Found zero t pos = λ u le lt. absurd (omega arith)
  turns_from-Found (suc left) t pos =
      let i = next_worker_id n (drawn t) in
      let small : i < n = next_worker_id-lt n (drawn t) pos in
      elim (Bool-cases (is_passed_over (state t i))) [
        | inl passed ↦
            rw (lt→ltb i n small, passed)
              (later left t _ passed (turns_from-Found left (suc t) pos))
        | inr usable ↦ rw (lt→ltb i n small, usable) (small, t, omega arith, refl, usable)
      ]

  -- With a worker for each thread of the pool, `get_next_worker` gives one of them only when it was its
  -- turn and its state at that turn is none of those that are passed over; and it fails only when the
  -- worker of every turn was passed over.
  pub get_next_worker_sound :
      (o : Option ℕ) → 0 < n → get_next_worker n n drawn state ≡ o → Found n 0 o
  unfolding get_next_worker
  get_next_worker_sound o pos e = subst (Found n 0) e (turns_from-Found n 0 pos)

-- When no other call draws an id in between and no id wraps around, a worker that stays usable is
-- enough for `get_next_worker` to give some worker.
pub get_next_worker_finds :
    (n c i : ℕ) (state : ℕ → ℕ → WorkerState)
    → i < n
    → ((t : ℕ) → is_passed_over (state t i) ≡ false)
    → (j : ℕ) × (get_next_worker n n (λ t. c + t) state ≡ some j)
get_next_worker_finds n c i state h usable =
    elim (Option-cases (get_next_worker n n (λ t. c + t) state)) [
      | inl failed ↦
          let (t, lt, turn) = turn_of n c i h in
          let passed =
            get_next_worker_sound n (λ t. c + t) state none (omega arith) failed t (omega arith)
              (omega arith) in
          absurd (cc (passed, turn, usable t))
      | inr found ↦ found
    ]

-- With a worker for each thread of the pool, the worker that `get_next_worker` gives is one whose id was
-- drawn in one of `n_threads` turns, and whose state in that turn is none of those that are passed over.
get_next_worker_usable :
    (n i : ℕ) (drawn : ℕ → ℕ) (state : ℕ → ℕ → WorkerState)
    → 0 < n
    → get_next_worker n n drawn state ≡ some i
    → (i < n)
      × (u : ℕ) × (u < n)
      × (i ≡ next_worker_id n (drawn u))
      × (is_passed_over (state u i) ≡ false)
get_next_worker_usable n i drawn state pos e =
    let (small, u, lt, turn, usable) = get_next_worker_sound n drawn state (some i) pos e in
    (small, u, omega arith, turn, usable)
