-- ===== src/Protocol/Envelope.antt =====
-- The message envelope and its structural check: `Envelope`, `MessageType` of
-- engine/crates/muxdeck-core/src/envelope.rs. The payload `d` is of any type.
use muxdeck.Prelude.{
  ℕ, String, Bool, true, false, Option, [], ◌∷◌, ◌==◌, nat_eq, if◌then◌else◌, is_some, Result,
}
use muxdeck.Prelude.Text.{format, to_string}
use muxdeck.Protocol.Errors.{ErrorPayload, bad_request, unsupported_version}
use muxdeck.Protocol.Ops.{Op}

-- The only protocol major version this build speaks.
abbrev pub protocol_version : ℕ
protocol_version = 1

pub data MessageType : Type 0 where
  req res err evt : MessageType

pub record Envelope (T : Type 0) : Type 0 where
  pub v : ℕ
  pub t : MessageType
  pub id : Option String
  pub op : Op
  pub d : T

-- The inner `match` of `validate`, on the kind and whether there is an id.
check_id : MessageType → Bool → Result (Unit {0}) ErrorPayload
check_id MessageType.evt true =
    Result.err (record { code = bad_request; message = "an evt must not carry a correlation id" })
check_id MessageType.evt false = Result.ok tt
check_id _ false =
    Result.err
      (record { code = bad_request; message = "a req, res or err must carry a correlation id" })
check_id _ true = Result.ok tt

module _ {T : Type 0} where
  unfoldable pub is_supported_version : Envelope T → Bool
  is_supported_version e = e.v == protocol_version

  unfoldable pub validate : Envelope T → Result (Unit {0}) ErrorPayload
  unfolding is_supported_version check_id
  validate e =
      if is_supported_version e
      then check_id e.t (is_some e.id)
      else Result.err (record {
        code = unsupported_version;
        message = format ("protocol version " ∷ to_string e.v ∷ " is not supported" ∷ []);
      })
