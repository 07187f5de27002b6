-- ===== src/Io/Recovery/Taking/Left.antt =====
-- What a take leaves of an error of src/io/mod.rs.
use cl_async.Base.{ℕ, ◌≡◌, refl, ap, none, []}
use cl_async.Io.Recovery.{IoType, IoFailure, generic, read, multi_read, msg, no_bytes, or_else}
use cl_async.Io.Recovery.Operations
use cl_async.Io.Recovery.Errors
use cl_async.Io.Recovery.Errors.{
  IoError, submission, operation, processing, IoSubmissionError, WorkerDispatchError,
  OutputBufferSubmissionError, OutputBufferVecSubmissionError, invalid_output_buffer,
  invalid_io_vec, failed_to_find_worker, failed_to_send_message, submit_io, other_message,
  unsupported_address_family, string_with_interior_null_bytes, failed_to_prepare_control_messages,
  failed_to_dispatch_operation, input_buffer_submission_error, input_buffer_vec_submission_error,
  output_buffer_submission_error, output_buffer_vec_submission_error,
  recv_msg_buffers_submission_error, invalid_io_input_buffer_error, into_buffer, into_buffers,
  emptied, emptied_vec, from_dispatch, left_in_dispatch,
}
use cl_async.Io.Recovery.Taking.{
  take_bytes_mut, take_vec, submission_take_bytes_mut, submission_take_vec, failure_take_bytes_mut,
  failure_take_vec, taken_from_dispatch,
}

into_buffer-emptied : (e : OutputBufferSubmissionError) → into_buffer (emptied e) ≡ no_bytes
unfolding into_buffer emptied
into_buffer-emptied (invalid_output_buffer e) = refl
into_buffer-emptied (invalid_io_vec b e) = refl

into_buffers-emptied_vec : (e : OutputBufferVecSubmissionError) → into_buffers (emptied_vec e) ≡ []
unfolding into_buffers emptied_vec
into_buffers-emptied_vec (invalid_output_buffer e) = refl
into_buffers-emptied_vec (invalid_io_vec bs e) = refl

module _ (Other C P Q : Type 0) (get_completion : IoType Other → ℕ → C × IoType Other) where
  dispatch_take_bytes_mut :
      (e : WorkerDispatchError Other C P Q get_completion)
      → let left =
          left_in_dispatch Other C P Q get_completion (Operations.take_bytes_mut Other) e in
        (from_dispatch Other C P Q get_completion (λ t. (Operations.take_bytes_mut Other t).0) e
          ≡ from_dispatch Other C P Q get_completion (Operations.into_bytes_mut Other) e)
        × ((from_dispatch Other C P Q get_completion (Operations.into_bytes_mut Other) left ≡ none)
            × (from_dispatch Other C P Q get_completion (Operations.into_vec Other) left
                ≡ from_dispatch Other C P Q get_completion (Operations.into_vec Other) e))
  unfolding from_dispatch left_in_dispatch
  dispatch_take_bytes_mut (failed_to_find_worker op) = Operations.into_vec-take_bytes_mut Other op.t
  dispatch_take_bytes_mut (failed_to_send_message (submit_io op)) =
      Operations.into_vec-take_bytes_mut Other op.t
  dispatch_take_bytes_mut (failed_to_send_message (other_message q)) = (refl, (refl, refl))

  submission_take_bytes_mut_lem :
      (e : IoSubmissionError Other C P Q get_completion)
      → ((submission_take_bytes_mut Other C P Q get_completion e).0
          ≡ Errors.submission_into_bytes_mut Other C P Q get_completion e)
        × ((or_else no_bytes (
                Errors.submission_into_bytes_mut Other C P Q get_completion
                  (submission_take_bytes_mut Other C P Q get_completion e).1)
              ≡ no_bytes)
            × (Errors.submission_into_vec Other C P Q get_completion
                  (submission_take_bytes_mut Other C P Q get_completion e).1
                ≡ Errors.submission_into_vec Other C P Q get_completion e))
  unfolding submission_take_bytes_mut taken_from_dispatch Errors.submission_into_bytes_mut
      Errors.submission_into_vec or_else
  submission_take_bytes_mut_lem (unsupported_address_family e) = (refl, (refl, refl))
  submission_take_bytes_mut_lem (string_with_interior_null_bytes e) = (refl, (refl, refl))
  submission_take_bytes_mut_lem (failed_to_prepare_control_messages e) = (refl, (refl, refl))
  submission_take_bytes_mut_lem (failed_to_dispatch_operation e) =
      let (gives, (leaves, keeps)) = dispatch_take_bytes_mut e in
      (gives, (ap (or_else no_bytes) leaves, keeps))
  submission_take_bytes_mut_lem (input_buffer_submission_error e) = (refl, (refl, refl))
  submission_take_bytes_mut_lem (input_buffer_vec_submission_error e) = (refl, (refl, refl))
  submission_take_bytes_mut_lem (output_buffer_submission_error e) =
      (refl, (into_buffer-emptied e, refl))
  submission_take_bytes_mut_lem (output_buffer_vec_submission_error e) = (refl, (refl, refl))
  submission_take_bytes_mut_lem (recv_msg_buffers_submission_error e) = (refl, (refl, refl))
  submission_take_bytes_mut_lem (invalid_io_input_buffer_error e) = (refl, (refl, refl))

  failure_take_bytes_mut_lem :
      (f : IoFailure)
      → ((failure_take_bytes_mut f).0 ≡ Errors.failure_into_bytes_mut Other C P Q get_completion f)
        × ((or_else no_bytes (
                Errors.failure_into_bytes_mut Other C P Q get_completion
                  (failure_take_bytes_mut f).1)
              ≡ no_bytes)
            × (Errors.failure_into_vec Other C P Q get_completion (failure_take_bytes_mut f).1
                ≡ Errors.failure_into_vec Other C P Q get_completion f))
  unfolding failure_take_bytes_mut Errors.failure_into_bytes_mut Errors.failure_into_vec or_else
  failure_take_bytes_mut_lem generic = (refl, (refl, refl))
  failure_take_bytes_mut_lem (read b) = (refl, (refl, refl))
  failure_take_bytes_mut_lem (multi_read bs) = (refl, (refl, refl))
  failure_take_bytes_mut_lem (msg bs) = (refl, (refl, refl))

  abbrev pub BytesTaken : IoError Other C P Q get_completion → Type 0
  BytesTaken e =
      ((take_bytes_mut Other C P Q get_completion e).0
        ≡ Errors.into_bytes_mut Other C P Q get_completion e)
      × ((or_else no_bytes (
              Errors.into_bytes_mut Other C P Q get_completion
                (take_bytes_mut Other C P Q get_completion e).1)
            ≡ no_bytes)
          × (Errors.into_vec Other C P Q get_completion
                (take_bytes_mut Other C P Q get_completion e).1
              ≡ Errors.into_vec Other C P Q get_completion e))

  take_bytes_mut_lem : (e : IoError Other C P Q get_completion) → BytesTaken e
  unfolding take_bytes_mut Errors.into_bytes_mut Errors.into_vec or_else
  take_bytes_mut_lem (submission e) = submission_take_bytes_mut_lem e
  take_bytes_mut_lem (operation e) = failure_take_bytes_mut_lem e.failure
  take_bytes_mut_lem (processing p) = (refl, (refl, refl))

  dispatch_take_vec :
      (e : WorkerDispatchError Other C P Q get_completion)
      → let left = left_in_dispatch Other C P Q get_completion (Operations.take_vec Other) e in
        (from_dispatch Other C P Q get_completion (λ t. (Operations.take_vec Other t).0) e
          ≡ from_dispatch Other C P Q get_completion (Operations.into_vec Other) e)
        × ((from_dispatch Other C P Q get_completion (Operations.into_vec Other) left ≡ none)
            × (from_dispatch Other C P Q get_completion (Operations.into_bytes_mut Other) left
                ≡ from_dispatch Other C P Q get_completion (Operations.into_bytes_mut Other) e))
  unfolding from_dispatch left_in_dispatch
  dispatch_take_vec (failed_to_find_worker op) = Operations.into_bytes_mut-take_vec Other op.t
  dispatch_take_vec (failed_to_send_message (submit_io op)) =
      Operations.into_bytes_mut-take_vec Other op.t
  dispatch_take_vec (failed_to_send_message (other_message q)) = (refl, (refl, refl))

  submission_take_vec_lem :
      (e : IoSubmissionError Other C P Q get_completion)
      → ((submission_take_vec Other C P Q get_completion e).0
          ≡ Errors.submission_into_vec Other C P Q get_completion e)
        × ((or_else [] (
                Errors.submission_into_vec Other C P Q get_completion
                  (submission_take_vec Other C P Q get_completion e).1)
              ≡ [])
            × (Errors.submission_into_bytes_mut Other C P Q get_completion
                  (submission_take_vec Other C P Q get_completion e).1
                ≡ Errors.submission_into_bytes_mut Other C P Q get_completion e))
  unfolding submission_take_vec taken_from_dispatch Errors.submission_into_bytes_mut
      Errors.submission_into_vec or_else
  submission_take_vec_lem (unsupported_address_family e) = (refl, (refl, refl))
  submission_take_vec_lem (string_with_interior_null_bytes e) = (refl, (refl, refl))
  submission_take_vec_lem (failed_to_prepare_control_messages e) = (refl, (refl, refl))
  submission_take_vec_lem (failed_to_dispatch_operation e) =
      let (gives, (leaves, keeps)) = dispatch_take_vec e in (gives, (ap (or_else []) leaves, keeps))
  submission_take_vec_lem (input_buffer_submission_error e) = (refl, (refl, refl))
  submission_take_vec_lem (input_buffer_vec_submission_error e) = (refl, (refl, refl))
  submission_take_vec_lem (output_buffer_submission_error e) = (refl, (refl, refl))
  submission_take_vec_lem (output_buffer_vec_submission_error e) =
      (refl, (into_buffers-emptied_vec e, refl))
  submission_take_vec_lem (recv_msg_buffers_submission_error e) = (refl, (refl, refl))
  submission_take_vec_lem (invalid_io_input_buffer_error e) = (refl, (refl, refl))

  failure_take_vec_lem :
      (f : IoFailure)
      → ((failure_take_vec f).0 ≡ Errors.failure_into_vec Other C P Q get_completion f)
        × ((or_else [] (Errors.failure_into_vec Other C P Q get_completion (failure_take_vec f).1)
              ≡ [])
            × (Errors.failure_into_bytes_mut Other C P Q get_completion (failure_take_vec f).1
                ≡ Errors.failure_into_bytes_mut Other C P Q get_completion f))
  unfolding failure_take_vec Errors.failure_into_bytes_mut Errors.failure_into_vec or_else
  failure_take_vec_lem generic = (refl, (refl, refl))
  failure_take_vec_lem (read b) = (refl, (refl, refl))
  failure_take_vec_lem (multi_read bs) = (refl, (refl, refl))
  failure_take_vec_lem (msg bs) = (refl, (refl, refl))

  abbrev pub VecTaken : IoError Other C P Q get_completion → Type 0
  VecTaken e =
      ((take_vec Other C P Q get_completion e).0 ≡ Errors.into_vec Other C P Q get_completion e)
      × ((or_else []
              (Errors.into_vec Other C P Q get_completion (take_vec Other C P Q get_completion e).1)
            ≡ [])
          × (Errors.into_bytes_mut Other C P Q get_completion
                (take_vec Other C P Q get_completion e).1
              ≡ Errors.into_bytes_mut Other C P Q get_completion e))

  take_vec_lem : (e : IoError Other C P Q get_completion) → VecTaken e
  unfolding take_vec Errors.into_bytes_mut Errors.into_vec or_else
  take_vec_lem (submission e) = submission_take_vec_lem e
  take_vec_lem (operation e) = failure_take_vec_lem e.failure
  take_vec_lem (processing p) = (refl, (refl, refl))

  -- A take of the bytes of an error gives what into gives, leaves no bytes or empty ones, and leaves
  -- the vector, and a take of the vector does the same with the two exchanged.
  pub takes-leave : (e : IoError Other C P Q get_completion) → BytesTaken e × VecTaken e
  takes-leave e = (take_bytes_mut_lem e, take_vec_lem e)
