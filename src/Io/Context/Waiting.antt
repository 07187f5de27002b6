-- ===== src/Io/Context/Waiting.antt =====
-- src/io/context.rs, src/worker/mod.rs: a submission that waits for room in the ring is not lost.
use cl_async.Base.{
  ℕ, ◌≡◌, refl, ◌∙◌, ◌⊎◌, inl, inr, ◌==◌, ==_iff, Bool, true, false, ◌||◌, Bool-cases, Option, none,
  some, List, [], ◌∷◌, ◌++◌, Dict, arith,
}
use cl_async.Io.Completion.{Completable, IoOperation}
use cl_async.Io.CompletionQueue.{IoCompletionSlot, new_slot, add_entry}
use cl_async.Io.Context.{
  Ring, IoSubmission, IoContext, split, pushed, prepare_submission, resubmitted, resubmit,
}

module _ (T : Completable) (R : Ring T) (D : Dict (IoCompletionSlot T)) where
  -- A submission of the key `k` waits.
  abbrev pub waits_in : ℕ → List (IoSubmission T R D) → Bool
  waits_in k [] = false
  waits_in k (s ∷ rest) = s.key == k || waits_in k rest

  -- The key `k` has a slot.
  abbrev pub HasSlot : ℕ → IoContext T R D → Type 0
  HasSlot k c = (slot : IoCompletionSlot T) × (D.get c.completion_queue k ≡ some slot)

  insert-HasSlot :
      (m : D.Map) (j k : ℕ) (v : IoCompletionSlot T)
      → ((slot : IoCompletionSlot T) × (D.get m k ≡ some slot)) ⊎ (j ≡ k)
      → (slot : IoCompletionSlot T) × (D.get (D.insert m j v) k ≡ some slot)
  insert-HasSlot m j k v h = elim (Bool-cases (j == k)) [
    | inl same ↦ (v, D.get-insert m j k v ∙ rw same refl)
    | inr other ↦ elsewhere other h
  ]
    where
      elsewhere :
          (j == k) ≡ false
          → ((slot : IoCompletionSlot T) × (D.get m k ≡ some slot)) ⊎ (j ≡ k)
          → (slot : IoCompletionSlot T) × (D.get (D.insert m j v) k ≡ some slot)
      elsewhere other (inl (slot, e)) = (slot, D.get-insert m j k v ∙ rw other e)
      elsewhere other (inr e) = absurd (ground arith)

  waits_in-snoc :
      (k : ℕ) (s : IoSubmission T R D) (rest : List (IoSubmission T R D))
      → (s.key ≡ k) ⊎ (waits_in k rest ≡ true)
      → waits_in k (rest ++ s ∷ []) ≡ true
  waits_in-snoc k s [] (inl e) = ground arith
  waits_in-snoc k s [] (inr h) = ground arith
  waits_in-snoc k s (x ∷ rest) (inl e) = ground (arith, waits_in-snoc k s rest (inl e))
  waits_in-snoc k s (x ∷ rest) (inr h) = elim (Bool-cases (x.key == k)) [
    | inl same ↦ rw same refl
    | inr other ↦
        let h' : waits_in k rest ≡ true = ground arith in rw other (waits_in-snoc k s rest (inr h'))
  ]

  -- The key `k` is known: a submission of it waits, or it has a slot.
  abbrev pub IsKnown : ℕ → List (IoSubmission T R D) → IoContext T R D → Type 0
  IsKnown k waiting c = (waits_in k waiting ≡ true) ⊎ HasSlot k c

  head_or_rest :
      (k : ℕ) (s : IoSubmission T R D) (rest : List (IoSubmission T R D))
      → waits_in k (s ∷ rest) ≡ true
      → (s.key ≡ k) ⊎ (waits_in k rest ≡ true)
  head_or_rest k s rest h = elim (Bool-cases (s.key == k)) [
    | inl same ↦ inl ((==_iff s.key k).0 same)
    | inr other ↦ inr (ground arith)
  ]

  -- One round of the loop, on what the push came to, when the rounds after it keep `k` known.
  round :
      (k : ℕ) (s : IoSubmission T R D) (rest : List (IoSubmission T R D)) (c : IoContext T R D)
      (should_submit_io : Bool) (op : IoOperation T) (o : Option R.Inner)
      (next : IoContext T R D → List (IoSubmission T R D) × IoContext T R D × Bool)
      → ((c' : IoContext T R D) → IsKnown k rest c' → IsKnown k (next c').0 (next c').1)
      → IsKnown k (s ∷ rest) c
      → let p = pushed T R D s.key op s.waker o c in
        let r = resubmitted T R D p.0 rest p.1 (next p.1) should_submit_io in IsKnown k r.0 r.1
  unfolding pushed resubmitted add_entry new_slot
  round k s rest c b op none next ih (inl h) =
      inl (waits_in-snoc k (record s { op = op }) rest (head_or_rest k s rest h))
  round k s rest c b op none next ih (inr slot) = inr slot
  round k s rest c b op (some inner) next ih h =
      ih (pushed T R D s.key op s.waker (some inner) c).1 (split_cases h)
    where
      v : IoCompletionSlot T
      v = new_slot T (record { op = op; key = s.key }) s.waker

      entered :
          (s.key ≡ k) ⊎ (waits_in k rest ≡ true)
          → IsKnown k rest (pushed T R D s.key op s.waker (some inner) c).1
      entered (inl e) = inr (insert-HasSlot c.completion_queue s.key k v (inr e))
      entered (inr w) = inl w

      split_cases :
          IsKnown k (s ∷ rest) c → IsKnown k rest (pushed T R D s.key op s.waker (some inner) c).1
      split_cases (inl w) = entered (head_or_rest k s rest w)
      split_cases (inr slot) = inr (insert-HasSlot c.completion_queue s.key k v (inl slot))

  -- However much room the ring has, a key whose submission waits, or that has a slot, does so after the
  -- loop over the waiting submissions: none is lost.
  pub resubmit_keeps :
      (k : ℕ) (waiting : List (IoSubmission T R D)) (c : IoContext T R D) (should_submit_io : Bool)
      → IsKnown k waiting c
      → let r = resubmit T R D waiting c should_submit_io in IsKnown k r.0 r.1
  unfolding resubmit prepare_submission split
  resubmit_keeps k [] c b h = h
  resubmit_keeps k (s ∷ rest) c b h =
      let (uring_entry, op) = R.as_uring_entry (record { op = s.op; key = s.key }) in
      round k s rest c b op (R.push uring_entry c.inner) (λ c'. resubmit T R D rest c' true)
        (λ c' known. resubmit_keeps k rest c' true known) h
