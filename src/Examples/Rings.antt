-- ===== src/Examples/Rings.antt =====
-- Runs of src/io/context.rs on concrete inputs.
use cl_async.Base.{ℕ, zero, suc, refl, false, inl, Option, none, some, [], ◌∷◌}
use cl_async.Base.Int.{pos}
use cl_async.Io.Completion.{IoDuration}
use cl_async.Io.Context.{Ring, IoSubmission, IoContext, resubmit}
use cl_async.Io.Context.Waiting.{IsKnown, resubmit_keeps}
use cl_async.Examples.Work.{counting, slots}

-- The room that is left is all that this ring keeps.
abbrev push_if_room : ℕ → Option ℕ
push_if_room zero = none
push_if_room (suc n) = some n

abbrev pub small_ring : Ring counting
small_ring = record {
  Inner = ℕ;
  Entry = Unit;
  as_uring_entry = λ e. (tt, e.op);
  push = λ e n. push_if_room n;
  completions = λ n. ([], n);
}

abbrev pub submission_of : ℕ → IoSubmission counting small_ring slots
submission_of k = record {
  key = k;
  op = record { fd = pos 3; t = 0; duration = IoDuration.single };
  waker = none;
}

abbrev pub room_for_one : IoContext counting small_ring slots
room_for_one = record { inner = 1; completion_queue = λ _. none }

resubmit_keeps_example :
    let r =
      resubmit counting small_ring slots
        (submission_of 7 ∷ submission_of 8 ∷ submission_of 9 ∷ [])
        room_for_one
        false in
    IsKnown counting small_ring slots 8 r.0 r.1
resubmit_keeps_example =
    resubmit_keeps counting small_ring slots 8
      (submission_of 7 ∷ submission_of 8 ∷ submission_of 9 ∷ []) room_for_one false (inl refl)
