-- ===== src/Protocol/Session.antt =====
-- Session handshake payloads: engine/crates/muxdeck-core/src/session.rs.
use muxdeck.Prelude.{ℕ, String, Bool, Option, none, some, Result, ok, err}
use muxdeck.Protocol.Errors.{ErrorPayload, bad_request}

pub data Platform : Type 0 where
  ios android windows macos linux : Platform

pub data HostPlatform : Type 0 where
  windows macos linux : HostPlatform

pub data Role : Type 0 where
  deck admin : Role

pub record HelloRequest : Type 0 where
  pub device_id : Option String
  pub admin_token : Option String
  pub client_version : String
  pub platform : Platform

check_credentials : Option String → Option String → Result (Unit {0}) ErrorPayload
check_credentials (some _) none = ok tt
check_credentials none (some _) = ok tt
check_credentials (some _) (some _) = err (record {
  code = bad_request;
  message = "session.hello carries both device_id and admin_token; exactly one is required";
})
check_credentials none none = err (record {
  code = bad_request;
  message = "session.hello carries neither device_id nor admin_token; exactly one is required";
})

unfoldable pub validate : HelloRequest → Result (Unit {0}) ErrorPayload
unfolding check_credentials
validate r = check_credentials r.device_id r.admin_token

pub record Challenge : Type 0 where
  pub nonce : String
  pub host_id : String
  pub host_name : String

pub record Capabilities : Type 0 where
  pub text_unicode : Bool
  pub media_keys : Bool
  pub mouse : Bool
  pub shell_actions : Bool

pub record Ready : Type 0 where
  pub role : Role
  pub protocol : ℕ
  pub engine_version : String
  pub host_platform : HostPlatform
  pub active_profile_id : String
  pub capabilities : Capabilities

pub data HelloResponse : Type 0 where
  challenged : Challenge → HelloResponse
  made_ready : Ready → HelloResponse

pub record AuthRequest : Type 0 where
  pub signature : String
