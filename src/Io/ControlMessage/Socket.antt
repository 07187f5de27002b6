-- ===== src/Io/ControlMessage/Socket.antt =====
-- src/io/message.rs: the control messages of the level `SOL_SOCKET`.
--
-- A `SystemTime` is the time since the epoch; one before the epoch, on which `prepare_control_message`
-- panics, is not represented. `panics` stands for the panics of `Duration::new` and of adding to
-- `UNIX_EPOCH`.
use cl_async.Base.{
  ℕ, ◌+◌, ◌*◌, ◌/◌, ◌%◌, ◌^◌, ◌==◌, ltb, if◌then◌else◌, List, [], ◌∷◌, length, Option, none, some,
  Result, ok, err,
}
use cl_async.Base.Int.{ℤ, pos, as_u32, as_u64}
use cl_async.Io.ControlMessage.{
  RawControlMessageIn, RawControlMessageOut, FromMessageInError, fill_msg_out_multi,
  fill_msg_out_single, from_msg_in_multi, from_msg_in_single, and_then,
}
use cl_async.Io.ControlMessage.Abi.{
  Abi, LevelName, SocketKind, Timespec, Credentials, from_ucred, into_ucred,
}

pub record SystemTime : Type 0 where
  pub secs : ℕ
  pub nanos : ℕ

pub data SocketLevelType : Type 0 where
  rights : List ℤ → SocketLevelType
  credentials : Credentials → SocketLevelType
  timestamp : SystemTime → SocketLevelType
  detailed_timestamp : (software hardware : SystemTime) → SocketLevelType

pub data ParseControlMessageSocketError : Type 0 where
  failed_to_retrieve_file_descriptors : FromMessageInError → ParseControlMessageSocketError
  failed_to_retrieve_credentials : FromMessageInError → ParseControlMessageSocketError
  failed_to_retrieve_timestamp : FromMessageInError → ParseControlMessageSocketError
  invalid_number_of_timestamps : (expected actual : ℕ) → ParseControlMessageSocketError
  invalid_control_message_type : (message_type message_level : ℕ) → ParseControlMessageSocketError
  panics : ParseControlMessageSocketError

-- `UNIX_EPOCH + Duration::new(secs, nanos)`: the standard library carries whole seconds over, and
-- panics where the sum does not fit an `i64`.
unfoldable pub after_epoch : ℕ → ℕ → Option SystemTime
after_epoch secs nanos =
    if ltb (secs + nanos / 1000000000) (2 ^ 63)
    then some (record { secs = secs + nanos / 1000000000; nanos = nanos % 1000000000 })
    else none

unfoldable pub as_timestamp :
    Option SystemTime → Result SocketLevelType ParseControlMessageSocketError
as_timestamp none = err ParseControlMessageSocketError.panics
as_timestamp (some t) = ok (SocketLevelType.timestamp t)

unfoldable pub as_detailed :
    Option SystemTime → Option SystemTime → Result SocketLevelType ParseControlMessageSocketError
as_detailed (some software) (some hardware) =
    ok (SocketLevelType.detailed_timestamp software hardware)
as_detailed software hardware = err ParseControlMessageSocketError.panics

-- The end of the arm of `SCM_TIMESTAMPING`.
unfoldable pub detailed_of : List Timespec → Result SocketLevelType ParseControlMessageSocketError
unfolding as_detailed after_epoch
detailed_of (t0 ∷ t1 ∷ t2 ∷ []) =
    as_detailed (after_epoch (as_u64 t0.tv_sec) (as_u32 t0.tv_nsec))
      (after_epoch (as_u64 t2.tv_sec) (as_u32 t2.tv_nsec))
detailed_of ts = err (ParseControlMessageSocketError.invalid_number_of_timestamps 3 (length ts))

-- `prepare_control_message`: the error is the type that cannot be sent.
module _ (A : Abi) where
  unfoldable pub prepare_socket : SocketLevelType → Result RawControlMessageOut ℕ
  unfolding into_ucred fill_msg_out_multi fill_msg_out_single
  prepare_socket (SocketLevelType.rights fds) = ok (
      fill_msg_out_multi A.c_int (A.level LevelName.sol_socket) (A.socket SocketKind.scm_rights)
        fds)
  prepare_socket (SocketLevelType.credentials creds) = ok (
      fill_msg_out_single A.ucred (A.level LevelName.sol_socket)
        (A.socket SocketKind.scm_credentials) (into_ucred creds))
  prepare_socket (SocketLevelType.timestamp t) = ok (
      fill_msg_out_single A.timeval (A.level LevelName.sol_socket)
        (A.socket SocketKind.scm_timestamp)
        (record { tv_sec = pos t.secs; tv_usec = pos (t.nanos / 1000) }))
  prepare_socket (SocketLevelType.detailed_timestamp software hardware) =
      err (A.socket SocketKind.scm_timestamping)

  -- `parse_control_message`; `tv_usec as u32 * 1000` wraps.
  unfoldable pub parse_socket :
      RawControlMessageIn → Result SocketLevelType ParseControlMessageSocketError
  unfolding and_then as_timestamp after_epoch detailed_of from_ucred from_msg_in_multi
      from_msg_in_single
  parse_socket cmsg =
      if cmsg.message_type == A.socket SocketKind.scm_rights
      then and_then (from_msg_in_multi A.c_int cmsg (cmsg.data_len / A.c_int.size))
          ParseControlMessageSocketError.failed_to_retrieve_file_descriptors
          (λ fds. ok (SocketLevelType.rights fds))
      else if cmsg.message_type == A.socket SocketKind.scm_credentials
      then and_then (from_msg_in_single A.ucred cmsg)
          ParseControlMessageSocketError.failed_to_retrieve_credentials
          (λ creds. ok (SocketLevelType.credentials (from_ucred creds)))
      else if cmsg.message_type == A.socket SocketKind.scm_timestamp
      then and_then (from_msg_in_single A.timeval cmsg)
          ParseControlMessageSocketError.failed_to_retrieve_timestamp
          (λ tv. as_timestamp (after_epoch (as_u64 tv.tv_sec) (as_u32 tv.tv_usec * 1000 % 2 ^ 32)))
      else if cmsg.message_type == A.socket SocketKind.scm_timestampns
      then and_then (from_msg_in_single A.timespec cmsg)
          ParseControlMessageSocketError.failed_to_retrieve_timestamp
          (λ ts. as_timestamp (after_epoch (as_u64 ts.tv_sec) (as_u32 ts.tv_nsec)))
      else if cmsg.message_type == A.socket SocketKind.scm_timestamping
      then and_then (from_msg_in_multi A.timespec cmsg (cmsg.data_len / A.timespec.size))
          ParseControlMessageSocketError.failed_to_retrieve_timestamp detailed_of
      else err (
          ParseControlMessageSocketError.invalid_control_message_type cmsg.message_type
            (A.level LevelName.sol_socket))
