-- ===== src/Protocol/Pairing.antt =====
-- Pairing payloads: engine/crates/muxdeck-core/src/pairing.rs.
use muxdeck.Prelude.{
  ℕ, String, Bool, ◌&&◌, Option, none, some, List, [], ◌∷◌, leb, if◌then◌else◌, unwrap_or, Result,
  ok, err,
}
use muxdeck.Prelude.Text.{format, to_string}
use muxdeck.Protocol.Errors.{ErrorPayload, bad_request}
use muxdeck.Protocol.Session.{Platform}

-- `TTL_RANGE_SECONDS`: 30..=300
abbrev pub ttl_start : ℕ
ttl_start = 30

abbrev pub ttl_end : ℕ
ttl_end = 300

abbrev pub default_ttl_seconds : ℕ
default_ttl_seconds = 120

pub record PairRequest : Type 0 where
  pub code : String
  pub device_pubkey : String
  pub device_name : String
  pub platform : Platform
  pub proof : String

pub record PairResponse : Type 0 where
  pub device_id : String
  pub host_id : String
  pub host_name : String

pub record PairBeginRequest : Type 0 where
  pub ttl_seconds : Option ℕ

unfoldable pub ttl_or_default : PairBeginRequest → ℕ
ttl_or_default r = unwrap_or r.ttl_seconds default_ttl_seconds

-- `TTL_RANGE_SECONDS.contains`
abbrev ttl_in_range : ℕ → Bool
ttl_in_range ttl = leb ttl_start ttl && leb ttl ttl_end

check_ttl : Option ℕ → Result (Unit {0}) ErrorPayload
check_ttl none = ok tt
check_ttl (some ttl) =
    if ttl_in_range ttl
    then ok tt
    else err (record {
      code = bad_request;
      message = format (
          "ttl_seconds "
          ∷ to_string ttl
          ∷ " is outside "
          ∷ to_string ttl_start
          ∷ "..="
          ∷ to_string ttl_end
          ∷ []);
    })

unfoldable pub validate : PairBeginRequest → Result (Unit {0}) ErrorPayload
unfolding check_ttl
validate r = check_ttl r.ttl_seconds

pub record PairBeginResponse : Type 0 where
  pub code : String
  pub expires_at : ℕ
  pub qr_payload : String

pub record DeviceInfo : Type 0 where
  pub device_id : String
  pub name : String
  pub platform : Platform
  pub paired_at : ℕ
  pub last_seen : ℕ
  pub connected : Bool

pub record PairListDevicesResponse : Type 0 where
  pub devices : List DeviceInfo

pub record PairRevokeRequest : Type 0 where
  pub device_id : String

pub record PairingState : Type 0 where
  pub active : Bool
  pub expires_at : ℕ
