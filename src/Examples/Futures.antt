-- ===== src/Examples/Futures.antt =====
-- Runs of the future of an operation of src/io/operation/future.rs, in a pool of which every worker has
-- sent three submissions.
use cl_async.Base.{ℕ, ◌≡◌, refl, true, none, some, [], ◌∷◌, ◌++◌, err, arith}
use cl_async.Base.Int.{pos}
use cl_async.Io.Completion.{IoDuration, IoOperation, complete_op}
use cl_async.Io.CompletionQueue.{Poll, complete}
use cl_async.Io.Context.{prepare_submission}
use cl_async.Io.Future.{Pool, with_client, IoError, new, Outcome, outcome_of, poll, drop_future}
use cl_async.Io.Future.Life.{submission_on, polled_early, future_lifecycle, drop_cancels_elsewhere}
use cl_async.Examples.Numbers.{numbered}
use cl_async.Examples.Rings.{small_ring, room_for_one}
use cl_async.Examples.Work.{counting, slots}

abbrev pool : Pool counting small_ring slots
pool i = record { connected = true; messages = []; next_key = 3; completion_queue = λ k. none }

abbrev once : IoOperation counting
once = record { fd = pos 3; t = 0; duration = IoDuration.single }

abbrev cancelling : ℕ → IoOperation counting
cancelling key = record { fd = pos 0; t = key; duration = IoDuration.zero }

polled_early_example :
    let (o1, f, p1) =
      poll counting small_ring slots some 7 (some 1) (new counting small_ring slots once) pool in
    let (o2, g, p2) = poll counting small_ring slots some 8 none f p1 in
    (o1 ≡ Outcome.pending)
    × ((p1 1).messages ≡ [] ++ submission_on counting small_ring slots (pool 1) once (some 7) ∷ [])
    × (o2 ≡ Outcome.ready (err IoError.unexpected_completion_result))
polled_early_example = polled_early counting small_ring slots some once 7 8 1 none pool refl refl

future_lifecycle_example :
    let (o1, f, p1) =
      poll counting small_ring slots some 7 (some 1) (new counting small_ring slots once) pool in
    let (back, c1) =
      prepare_submission counting small_ring slots
        (submission_on counting small_ring slots (pool 1) once (some 7))
        room_for_one in
    let done = complete counting slots numbered 3 (pos 12) c1.completion_queue in
    let p2 =
      with_client counting small_ring slots 1
        (record (p1 1) { completion_queue = done.slots })
        p1 in
    (o1 ≡ Outcome.pending)
    × ((p1 1).messages ≡ [] ++ submission_on counting small_ring slots (pool 1) once (some 7) ∷ [])
    × (back ≡ none)
    × (done.wakes ≡ some 7)
    × ((poll counting small_ring slots some 7 none f p2).0
        ≡ outcome_of counting small_ring slots some
            (Poll.ready (some (complete_op counting numbered (pos 12) once).0)))
future_lifecycle_example =
    future_lifecycle counting small_ring slots some numbered once 7 1 none pool room_for_one 0
      (pos 12) refl refl refl

drop_cancels_elsewhere_example :
    let q =
      drop_future counting small_ring slots cancelling
        (some 2)
        (record { operation = none; handle = some (record { worker = 1; key = 3 }) })
        pool in
    (q 1 ≡ pool 1)
    × ((q 2).messages
        ≡ [] ++ submission_on counting small_ring slots (pool 2) (cancelling 3) none ∷ [])
drop_cancels_elsewhere_example =
    drop_cancels_elsewhere counting small_ring slots cancelling 1 2 3 pool refl
      (λ e. absurd (omega arith))
