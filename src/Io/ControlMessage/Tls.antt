-- ===== src/Io/ControlMessage/Tls.antt =====
-- src/io/message.rs: the control messages of the level `SOL_TLS`.
use cl_async.Base.{ℕ, ◌==◌, if◌then◌else◌, Result, ok, err}
use cl_async.Io.ControlMessage.{
  RawControlMessageIn, RawControlMessageOut, FromMessageInError, fill_msg_out_single,
  from_msg_in_single, and_then,
}
use cl_async.Io.ControlMessage.Abi.{Abi, LevelName, TlsKind, TlsRecordType}

pub data TlsLevelType : Type 0 where
  set_record_type : TlsRecordType → TlsLevelType
  get_record_type : TlsRecordType → TlsLevelType

pub data ParseControlMessageTlsError : Type 0 where
  failed_to_retrieve_record_type : FromMessageInError → ParseControlMessageTlsError
  invalid_control_message_type : (message_type message_level : ℕ) → ParseControlMessageTlsError

module _ (A : Abi) where
  -- The error is the type that cannot be sent.
  unfoldable pub prepare_tls : TlsLevelType → Result RawControlMessageOut ℕ
  unfolding fill_msg_out_single
  prepare_tls (TlsLevelType.set_record_type record_type) = ok (
      fill_msg_out_single A.tls_record_type (A.level LevelName.sol_tls)
        (A.tls TlsKind.tls_set_record_type) record_type)
  prepare_tls (TlsLevelType.get_record_type record_type) = err (A.tls TlsKind.tls_get_record_type)

  unfoldable pub parse_tls : RawControlMessageIn → Result TlsLevelType ParseControlMessageTlsError
  unfolding and_then from_msg_in_single
  parse_tls cmsg =
      if cmsg.message_type == A.tls TlsKind.tls_get_record_type
      then and_then (from_msg_in_single A.tls_record_type cmsg)
          ParseControlMessageTlsError.failed_to_retrieve_record_type
          (λ record_type. ok (TlsLevelType.get_record_type record_type))
      else err (
          ParseControlMessageTlsError.invalid_control_message_type cmsg.message_type
            (A.level LevelName.sol_tls))
