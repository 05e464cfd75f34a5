-- ===== src/Engine/Errors.antt =====
-- The engine's error type: engine/crates/muxdeck-engine/src/error.rs. A path and the text of a
-- library's error are strings.
use muxdeck.Prelude.{String, Result}
use muxdeck.Protocol.Errors.{ErrorCode, ErrorPayload, internal}

pub data EngineError : Type 0 where
  io : String → String → String → EngineError
  json : String → String → String → EngineError
  certificate : String → EngineError
  entropy : String → EngineError
  corrupt_identity : String → EngineError
  permissions : String → String → EngineError
  service : String → String → EngineError
  wire_error : ErrorPayload → EngineError

abbrev pub Outcome : Type 0 → Type 0
Outcome A = Result A EngineError

-- `EngineError::wire`
abbrev pub wire : ErrorCode → String → EngineError
wire code message = wire_error (record { code = code; message = message })

-- Only a wire error tells a client its text.
unfoldable pub to_payload : EngineError → ErrorPayload
to_payload (wire_error payload) = payload
to_payload _ = record { code = internal; message = "internal engine error" }
