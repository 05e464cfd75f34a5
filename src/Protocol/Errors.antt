-- ===== src/Protocol/Errors.antt =====
-- Error codes and payloads on the wire: engine/crates/muxdeck-core/src/envelope.rs.
use muxdeck.Prelude.{String}

pub data ErrorCode : Type 0 where
  bad_request unsupported_version unknown_op not_authenticated not_authorized pairing_closed :
      ErrorCode
  bad_code unknown_device bad_signature injection_failed not_found disabled internal : ErrorCode

unfoldable pub as_str : ErrorCode → String
as_str bad_request = "BAD_REQUEST"
as_str unsupported_version = "UNSUPPORTED_VERSION"
as_str unknown_op = "UNKNOWN_OP"
as_str not_authenticated = "NOT_AUTHENTICATED"
as_str not_authorized = "NOT_AUTHORIZED"
as_str pairing_closed = "PAIRING_CLOSED"
as_str bad_code = "BAD_CODE"
as_str unknown_device = "UNKNOWN_DEVICE"
as_str bad_signature = "BAD_SIGNATURE"
as_str injection_failed = "INJECTION_FAILED"
as_str not_found = "NOT_FOUND"
as_str disabled = "DISABLED"
as_str internal = "INTERNAL"

pub record ErrorPayload : Type 0 where
  pub code : ErrorCode
  pub message : String
