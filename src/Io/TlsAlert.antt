-- ===== src/Io/TlsAlert.antt =====
-- src/io/message.rs: the level and the description of a TLS alert, as bytes.
use cl_async.Base.{
  ℕ, ◌≡◌, refl, sym, ◌∙◌, ◌⊎◌, inl, inr, ◌==◌, ==_iff, if◌then◌else◌, Bool-cases, List, [], ◌∷◌,
  All,
}

pub data TlsAlertLevel : Type 0 where
  warning fatal unknown : TlsAlertLevel

-- The discriminants of `TlsAlertLevel`, a `repr(u8)`.
pub level_byte : TlsAlertLevel → ℕ
level_byte TlsAlertLevel.warning = 1
level_byte TlsAlertLevel.fatal = 2
level_byte TlsAlertLevel.unknown = 255

-- `From<u8> for TlsAlertLevel`.
pub level_from : ℕ → TlsAlertLevel
level_from byte =
    if byte == 1
    then TlsAlertLevel.warning
    else if byte == 2
    then TlsAlertLevel.fatal
    else TlsAlertLevel.unknown

pub data TlsAlertDescription : Type 0 where
  close_notify unexpected_message bad_record_mac decryption_failed : TlsAlertDescription
  record_overflow decompression_failure handshake_failure no_certificate : TlsAlertDescription
  bad_certificate unsupported_certificate certificate_revoked certificate_expired :
      TlsAlertDescription
  certificate_unknown illegal_parameter unknown_ca access_denied : TlsAlertDescription
  decode_error decrypt_error export_restriction protocol_version : TlsAlertDescription
  insufficient_security internal_error inappropriate_fallback user_canceled : TlsAlertDescription
  no_renegotiation missing_extension unsupported_extension certificate_unobtainable :
      TlsAlertDescription
  unrecognized_name bad_certificate_status_response bad_certificate_hash_value
        unknown_psk_identity :
      TlsAlertDescription
  certificate_required no_application_protocol unknown : TlsAlertDescription

-- The discriminants of `TlsAlertDescription`, a `repr(u8)`.
pub description_byte : TlsAlertDescription → ℕ
description_byte TlsAlertDescription.close_notify = 0
description_byte TlsAlertDescription.unexpected_message = 10
description_byte TlsAlertDescription.bad_record_mac = 20
description_byte TlsAlertDescription.decryption_failed = 21
description_byte TlsAlertDescription.record_overflow = 22
description_byte TlsAlertDescription.decompression_failure = 30
description_byte TlsAlertDescription.handshake_failure = 40
description_byte TlsAlertDescription.no_certificate = 41
description_byte TlsAlertDescription.bad_certificate = 42
description_byte TlsAlertDescription.unsupported_certificate = 43
description_byte TlsAlertDescription.certificate_revoked = 44
description_byte TlsAlertDescription.certificate_expired = 45
description_byte TlsAlertDescription.certificate_unknown = 46
description_byte TlsAlertDescription.illegal_parameter = 47
description_byte TlsAlertDescription.unknown_ca = 48
description_byte TlsAlertDescription.access_denied = 49
description_byte TlsAlertDescription.decode_error = 50
description_byte TlsAlertDescription.decrypt_error = 51
description_byte TlsAlertDescription.export_restriction = 60
description_byte TlsAlertDescription.protocol_version = 70
description_byte TlsAlertDescription.insufficient_security = 71
description_byte TlsAlertDescription.internal_error = 80
description_byte TlsAlertDescription.inappropriate_fallback = 86
description_byte TlsAlertDescription.user_canceled = 90
description_byte TlsAlertDescription.no_renegotiation = 100
description_byte TlsAlertDescription.missing_extension = 109
description_byte TlsAlertDescription.unsupported_extension = 110
description_byte TlsAlertDescription.certificate_unobtainable = 111
description_byte TlsAlertDescription.unrecognized_name = 112
description_byte TlsAlertDescription.bad_certificate_status_response = 113
description_byte TlsAlertDescription.bad_certificate_hash_value = 114
description_byte TlsAlertDescription.unknown_psk_identity = 115
description_byte TlsAlertDescription.certificate_required = 116
description_byte TlsAlertDescription.no_application_protocol = 120
description_byte TlsAlertDescription.unknown = 255

-- The arms of `From<u8> for TlsAlertDescription`; the default is not among them.
pub arms : List (ℕ × TlsAlertDescription)
arms =
    (0, TlsAlertDescription.close_notify)
    ∷ (10, TlsAlertDescription.unexpected_message)
    ∷ (20, TlsAlertDescription.bad_record_mac)
    ∷ (21, TlsAlertDescription.decryption_failed)
    ∷ (22, TlsAlertDescription.record_overflow)
    ∷ (30, TlsAlertDescription.decompression_failure)
    ∷ (40, TlsAlertDescription.handshake_failure)
    ∷ (41, TlsAlertDescription.no_certificate)
    ∷ (42, TlsAlertDescription.bad_certificate)
    ∷ (43, TlsAlertDescription.unsupported_certificate)
    ∷ (44, TlsAlertDescription.certificate_revoked)
    ∷ (45, TlsAlertDescription.certificate_expired)
    ∷ (46, TlsAlertDescription.certificate_unknown)
    ∷ (47, TlsAlertDescription.illegal_parameter)
    ∷ (48, TlsAlertDescription.unknown_ca)
    ∷ (49, TlsAlertDescription.access_denied)
    ∷ (50, TlsAlertDescription.decode_error)
    ∷ (51, TlsAlertDescription.decrypt_error)
    ∷ (60, TlsAlertDescription.export_restriction)
    ∷ (70, TlsAlertDescription.protocol_version)
    ∷ (71, TlsAlertDescription.insufficient_security)
    ∷ (80, TlsAlertDescription.internal_error)
    ∷ (86, TlsAlertDescription.inappropriate_fallback)
    ∷ (90, TlsAlertDescription.user_canceled)
    ∷ (100, TlsAlertDescription.no_renegotiation)
    ∷ (109, TlsAlertDescription.missing_extension)
    ∷ (110, TlsAlertDescription.unsupported_extension)
    ∷ (111, TlsAlertDescription.certificate_unobtainable)
    ∷ (112, TlsAlertDescription.unrecognized_name)
    ∷ (113, TlsAlertDescription.bad_certificate_status_response)
    ∷ (114, TlsAlertDescription.bad_certificate_hash_value)
    ∷ (115, TlsAlertDescription.unknown_psk_identity)
    ∷ (116, TlsAlertDescription.certificate_required)
    ∷ (120, TlsAlertDescription.no_application_protocol)
    ∷ []

pub match_arms : ℕ → List (ℕ × TlsAlertDescription) → TlsAlertDescription
match_arms byte [] = TlsAlertDescription.unknown
match_arms byte ((b, d) ∷ rest) = if byte == b then d else match_arms byte rest

-- `From<u8> for TlsAlertDescription`.
pub description_from : ℕ → TlsAlertDescription
unfolding match_arms arms
description_from byte = match_arms byte arms

-- Every description, and every level, is read back from its own discriminant.
alert_round_trips :
    (d : TlsAlertDescription) (l : TlsAlertLevel)
    → (description_from (description_byte d) ≡ d) × (level_from (level_byte l) ≡ l)
unfolding description_from description_byte level_from level_byte match_arms
alert_round_trips d l = (description d, level l)
  where
    description : (d : TlsAlertDescription) → description_from (description_byte d) ≡ d
    description TlsAlertDescription.close_notify = refl
    description TlsAlertDescription.unexpected_message = refl
    description TlsAlertDescription.bad_record_mac = refl
    description TlsAlertDescription.decryption_failed = refl
    description TlsAlertDescription.record_overflow = refl
    description TlsAlertDescription.decompression_failure = refl
    description TlsAlertDescription.handshake_failure = refl
    description TlsAlertDescription.no_certificate = refl
    description TlsAlertDescription.bad_certificate = refl
    description TlsAlertDescription.unsupported_certificate = refl
    description TlsAlertDescription.certificate_revoked = refl
    description TlsAlertDescription.certificate_expired = refl
    description TlsAlertDescription.certificate_unknown = refl
    description TlsAlertDescription.illegal_parameter = refl
    description TlsAlertDescription.unknown_ca = refl
    description TlsAlertDescription.access_denied = refl
    description TlsAlertDescription.decode_error = refl
    description TlsAlertDescription.decrypt_error = refl
    description TlsAlertDescription.export_restriction = refl
    description TlsAlertDescription.protocol_version = refl
    description TlsAlertDescription.insufficient_security = refl
    description TlsAlertDescription.internal_error = refl
    description TlsAlertDescription.inappropriate_fallback = refl
    description TlsAlertDescription.user_canceled = refl
    description TlsAlertDescription.no_renegotiation = refl
    description TlsAlertDescription.missing_extension = refl
    description TlsAlertDescription.unsupported_extension = refl
    description TlsAlertDescription.certificate_unobtainable = refl
    description TlsAlertDescription.unrecognized_name = refl
    description TlsAlertDescription.bad_certificate_status_response = refl
    description TlsAlertDescription.bad_certificate_hash_value = refl
    description TlsAlertDescription.unknown_psk_identity = refl
    description TlsAlertDescription.certificate_required = refl
    description TlsAlertDescription.no_application_protocol = refl
    description TlsAlertDescription.unknown = refl

    level : (l : TlsAlertLevel) → level_from (level_byte l) ≡ l
    level TlsAlertLevel.warning = refl
    level TlsAlertLevel.fatal = refl
    level TlsAlertLevel.unknown = refl

abbrev IsUndone : ℕ × TlsAlertDescription → Type 0
IsUndone (b, d) = description_byte d ≡ b

match_arms-byte :
    (byte : ℕ) (rows : List (ℕ × TlsAlertDescription))
    → All IsUndone rows
    → (description_byte (match_arms byte rows) ≡ byte)
      ⊎ (match_arms byte rows ≡ TlsAlertDescription.unknown)
unfolding match_arms
match_arms-byte byte [] all = inr refl
match_arms-byte byte ((b, d) ∷ rest) all = elim (Bool-cases (byte == b)) [
  | inl hit ↦ rw hit (inl (all.0 ∙ sym ((==_iff byte b).0 hit)))
  | inr miss ↦ rw miss (match_arms-byte byte rest all.1)
]

arms-IsUndone : All IsUndone arms
unfolding arms description_byte
arms-IsUndone = (
  refl,
  (
    refl,
    (
      refl,
      (
        refl,
        (
          refl,
          (
            refl,
            (
              refl,
              (
                refl,
                (
                  refl,
                  (
                    refl,
                    (
                      refl,
                      (
                        refl,
                        (
                          refl,
                          (
                            refl,
                            (
                              refl,
                              (
                                refl,
                                (
                                  refl,
                                  (
                                    refl,
                                    (
                                      refl,
                                      (
                                        refl,
                                        (
                                          refl,
                                          (
                                            refl,
                                            (
                                              refl,
                                              (
                                                refl,
                                                (
                                                  refl,
                                                  (
                                                    refl,
                                                    (
                                                      refl,
                                                      (
                                                        refl,
                                                        (
                                                          refl,
                                                          (
                                                            refl,
                                                            (refl, (refl, (refl, (refl, tt)))),
                                                          ),
                                                        ),
                                                      ),
                                                    ),
                                                  ),
                                                ),
                                              ),
                                            ),
                                          ),
                                        ),
                                      ),
                                    ),
                                  ),
                                ),
                              ),
                            ),
                          ),
                        ),
                      ),
                    ),
                  ),
                ),
              ),
            ),
          ),
        ),
      ),
    ),
  ),
)

-- A byte is read as the description whose discriminant it is, or as `Unknown`: no byte is read as the
-- description of another.
pub description_exact :
    (byte : ℕ)
    → (description_byte (description_from byte) ≡ byte)
      ⊎ (description_from byte ≡ TlsAlertDescription.unknown)
unfolding description_from
description_exact byte = match_arms-byte byte arms arms-IsUndone
