-- ===== src/Engine/Session.antt =====
-- The handshake state machine: engine/crates/muxdeck-engine/src/session.rs. The nonce that
-- `random_bytes` gives and the platform that the build is for are arguments.
pub mod Grants
pub mod Signed
pub mod History
use muxdeck.Prelude.{
  ℕ, String, Bool, true, false, not, ◌&&◌, ◌||◌, Option, none, some, List, [], ◌∷◌, ◌==◌, nat_eq,
  if◌then◌else◌, is_some, Result, ok, err, ok_or, map_err, ◌>>=◌, length,
}
use muxdeck.Prelude.Text.{as_bytes, format, to_string}
use muxdeck.Protocol.Errors.{bad_request, not_authorized, not_authenticated, bad_signature}
use muxdeck.Protocol.Envelope.{protocol_version}
use muxdeck.Protocol.Session.{
  validate, Role, HostPlatform, Capabilities, HelloRequest, HelloResponse, challenged, made_ready,
  Challenge, Ready, AuthRequest,
}
use muxdeck.Protocol.Signing.{session_auth_message, signature_len}
use muxdeck.Engine.Errors.{EngineError, Outcome, wire_error, wire}
use muxdeck.Engine.Crypto.{Crypto}
use muxdeck.Engine.Identity.{Identity}
use muxdeck.Engine.ConstantTime.{constant_time_eq}
use muxdeck.Engine.Pairing.{decode_fixed}
use muxdeck.Engine.Registry.{Registry, verifying_key}

-- `std::net::IpAddr`: four octets, or a number of 128 bits.
pub data IpAddr : Type 0 where
  v4 : ℕ → ℕ → ℕ → ℕ → IpAddr
  v6 : ℕ → IpAddr

unfoldable pub is_loopback : IpAddr → Bool
is_loopback (v4 a b c d) = a == 127
is_loopback (v6 address) = address == 1

pub record SocketAddr : Type 0 where
  pub ip : IpAddr
  pub port : ℕ

pub record HandshakeContext : Type 0 where
  pub identity : Identity
  pub registry : Registry
  pub host_name : String
  pub engine_version : String
  pub host_platform : HostPlatform
  pub active_profile_id : String
  pub capabilities : Capabilities

pub ready : HandshakeContext → Role → Ready
ready ctx role = record {
  role = role;
  protocol = protocol_version;
  engine_version = ctx.engine_version;
  host_platform = ctx.host_platform;
  active_profile_id = ctx.active_profile_id;
  capabilities = ctx.capabilities;
}

pub data State : Type 0 where
  unauthenticated : State
  awaiting_auth : String → List ℕ → State
  ready_as : Role → Option String → State

pub record Session : Type 0 where
  pub peer : SocketAddr
  pub state : State
  pub profile_subscribed : Bool
  pub telemetry_subscribed : Bool

unfoldable pub new : SocketAddr → Session
new peer = record {
  peer = peer;
  state = unauthenticated;
  profile_subscribed = false;
  telemetry_subscribed = false;
}

unfoldable pub subscribe_profile : Session → Session
subscribe_profile s = record s { profile_subscribed = true }

unfoldable pub subscribe_telemetry : Session → Session
subscribe_telemetry s = record s { telemetry_subscribed = true }

-- The role of a socket that has finished authenticating.
state_role : State → Option Role
state_role (ready_as role _) = some role
state_role _ = none

unfoldable pub role : Session → Option Role
unfolding state_role
role s = state_role s.state

state_device : State → Option String
state_device (ready_as _ device_id) = device_id
state_device (awaiting_auth device_id _) = some device_id
state_device unauthenticated = none

unfoldable pub device_id : Session → Option String
unfolding state_device
device_id s = state_device s.state

state_ready : State → Bool
state_ready (ready_as _ _) = true
state_ready _ = false

unfoldable pub is_ready : Session → Bool
unfolding state_ready
is_ready s = state_ready s.state

-- `EventAudience` of server.rs.
pub data EventAudience : Type 0 where
  profile_subscribers telemetry_subscribers admin_only all_authenticated : EventAudience

is_admin : Option Role → Bool
is_admin (some Role.admin) = true
is_admin _ = false

audience_wants : EventAudience → Session → Bool
unfolding is_admin role
audience_wants profile_subscribers s = s.profile_subscribed
audience_wants telemetry_subscribers s = s.telemetry_subscribed
audience_wants admin_only s = is_admin (role s)
audience_wants all_authenticated s = true

unfoldable pub wants : EventAudience → Session → Bool
unfolding audience_wants is_ready
wants audience s = if is_ready s then audience_wants audience s else false

-- The admin path: loopback and a matching token.
unfoldable pub hello_admin : String → HandshakeContext → Session → Outcome Ready × Session
unfolding is_loopback ready
hello_admin token ctx s =
    let from_loopback = is_loopback s.peer.ip in
    let token_matches = constant_time_eq (as_bytes token) (as_bytes ctx.identity.admin_token) in
    if not from_loopback || not token_matches
    then (
      err (
          wire not_authorized
            "the admin role is available only to a local client presenting the admin token"),
      s,
    )
    else (ok (ready ctx Role.admin), record s { state = ready_as Role.admin none })

abbrev map_result : {A B : Type 0} → (A → B) → Outcome A × Session → Outcome B × Session
map_result f (ok a, s) = (ok (f a), s)
map_result f (err e, s) = (err e, s)

module _ (c : Crypto) where
  open c use {VerifyingKey, base64_encode, base64_decode, verify_strict}

  -- The deck path: a challenge for the device to sign.
  unfoldable pub hello_deck :
      Outcome (List ℕ) → String → HandshakeContext → Session → Outcome Challenge × Session
  hello_deck random id ctx s = elim (verifying_key c ctx.registry id) [
    | err e ↦ (err e, s)
    | ok _ ↦ elim random [
      | err e ↦ (err e, s)
      | ok nonce ↦ (
        ok (record {
          nonce = base64_encode nonce;
          host_id = ctx.identity.host_id;
          host_name = ctx.host_name;
        }),
        record s { state = awaiting_auth id nonce },
      )
    ]
  ]

  -- After `request.validate()`, which leaves exactly one of the two.
  hello_with :
      Option String
      → Option String
      → Outcome (List ℕ)
      → HandshakeContext
      → Session
      → Outcome HelloResponse × Session
  unfolding hello_admin hello_deck
  hello_with device (some token) random ctx s = map_result made_ready (hello_admin token ctx s)
  hello_with (some id) none random ctx s = map_result challenged (hello_deck random id ctx s)
  hello_with none none random ctx s =
      (err (wire bad_request "validate() guarantees one of the two is present"), s)

  unfoldable pub handle_hello :
      Outcome (List ℕ) → HelloRequest → HandshakeContext → Session → Outcome HelloResponse × Session
  unfolding hello_with is_ready
  handle_hello random request ctx s =
      if is_ready s
      then (err (wire bad_request "this session has already completed its handshake"), s)
      else elim (validate request) [
        | err e ↦ (err (wire_error e), s)
        | ok _ ↦ hello_with request.device_id request.admin_token random ctx s
      ]

  -- The checks of `handle_auth` on an answer to a challenge.
  unfoldable pub check_auth : String → List ℕ → AuthRequest → HandshakeContext → Outcome (Unit {0})
  unfolding decode_fixed
  check_auth id nonce request ctx = do
    key ← verifying_key c ctx.registry id
    signature ← decode_fixed c signature_len request.signature "signature"
    let message = session_auth_message nonce id ctx.identity.host_id
    if verify_strict key message signature
        then ok tt
        else err (wire bad_signature "challenge signature did not verify")

  auth_in : State → AuthRequest → HandshakeContext → Session → Outcome Ready × Session
  unfolding check_auth ready
  auth_in (awaiting_auth id nonce) request ctx s = elim (check_auth id nonce request ctx) [
    | err e ↦ (err e, s)
    | ok _ ↦ (ok (ready ctx Role.deck), record s { state = ready_as Role.deck (some id) })
  ]
  auth_in _ request ctx s =
      (err (wire not_authenticated "session.auth is valid only after a session.hello challenge"), s)

  unfoldable pub handle_auth : AuthRequest → HandshakeContext → Session → Outcome Ready × Session
  unfolding auth_in
  handle_auth request ctx s = auth_in s.state request ctx s
