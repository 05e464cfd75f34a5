-- ===== src/Examples/Handshakes.antt =====
-- A handshake of each kind, and a request to pair.
use muxdeck.Prelude.{
  ℕ, suc, ◌+◌, ◌*◌, ◌%◌, String, ◌≡◌, ◌≢◌, ◌↔◌, refl, Bool, true, false, Option, none, some, List,
  [], ◌∷◌, ◌++◌, Result, ok, err, is_ok, inl, inr, arith,
}
use muxdeck.Prelude.Text.{as_bytes, encode_utf8}
use muxdeck.Protocol.Errors.{unknown_op as unknown_op_code}
use muxdeck.Protocol.KnownOps.{pair_begin, system_ping}
use muxdeck.Protocol.Ops.{known_op, unknown_op}
use muxdeck.Protocol.Session
use muxdeck.Protocol.Session.{Platform, Role, HelloRequest, AuthRequest, made_ready}
use muxdeck.Protocol.Pairing.{PairRequest}
use muxdeck.Protocol.Signing.{session_auth_message, pair_proof_message}
use muxdeck.Engine.Errors
use muxdeck.Engine.Errors.{wire}
use muxdeck.Engine.Pairing.{PairingWindow, nanos_per_second, verify_pair_request, decode_fixed}
use muxdeck.Engine.Pairing.Proofs.{IsProven, verify_pair_request_iff}
use muxdeck.Engine.ConstantTime.{constant_time_eq}
use muxdeck.Engine.Session.{
  Session, new, handle_hello, handle_auth, hello_deck, is_ready, is_loopback, ready_as, role,
  check_auth,
}
use muxdeck.Engine.Session.Grants.{hello_ready_iff, is_made_ready, IsLocalAdmin}
use muxdeck.Engine.Session.History.{Event, step, hello, auth, after, Justified, after-Justified}
use muxdeck.Engine.Registry.{verifying_key, stored_key, get}
use muxdeck.Engine.Dispatch.{access_for, authorize, unauthenticated_error}
use muxdeck.Engine.Dispatch.Matrix.{Allowed, authorize_iff, unauthenticated_tells_ops_apart}
use muxdeck.Examples.Fixtures.{
  toy, encode, sum, zeros, some_key, some_id, identity, context_of, loopback, remote,
  empty_registry, paired_registry, signed, letters, decode_from, prepend,
}

abbrev admin_hello : HelloRequest
admin_hello = record {
  device_id = none;
  admin_token = some "token";
  client_version = "1";
  platform = Platform.linux;
}

abbrev pub deck_hello : HelloRequest
deck_hello = record {
  device_id = some some_id;
  admin_token = none;
  client_version = "1";
  platform = Platform.android;
}

abbrev pub nonce : List ℕ
nonce = 3 ∷ zeros 31

abbrev signature_of : List ℕ → List ℕ
signature_of message = (sum some_key + sum message) % 256 ∷ zeros 63

abbrev pub answer : AuthRequest
answer = record {
  signature = encode (signature_of (session_auth_message nonce some_id identity.host_id));
}

-- The latest event first.
abbrev history : List Event
history =
    auth answer (context_of paired_registry)
    ∷ hello (ok nonce) deck_hello (context_of paired_registry)
    ∷ []

after-history : (after toy remote history).state ≡ ready_as Role.deck (some some_id)
unfolding after step new handle_hello handle_auth hello_deck verifying_key stored_key get toy encode
    signed sum letters decode_from prepend session_auth_message as_bytes check_auth decode_fixed
    Session.validate muxdeck.Prelude.Map.get
after-history = refl

after-Justified_example : Justified toy remote (after toy remote history).state history
after-Justified_example = after-Justified toy remote history

local_admin : IsLocalAdmin toy admin_hello (context_of empty_registry) (new loopback)
unfolding is_ready new is_loopback
local_admin = record {
  fresh = refl;
  token = "token";
  no_device = refl;
  presented = refl;
  local = refl;
  matches = refl;
}

hello_ready_iff_example :
    let (reply, s') =
      handle_hello toy (ok nonce) admin_hello (context_of empty_registry) (new loopback) in
    ((is_made_ready toy reply ≡ true)
      ↔ IsLocalAdmin toy admin_hello (context_of empty_registry) (new loopback))
    × (((is_ready (new loopback) ≡ false) × (is_ready s' ≡ true))
        ↔ IsLocalAdmin toy admin_hello (context_of empty_registry) (new loopback))
    × (((is_ready (new loopback) ≡ false)
          × (s' ≡ record (new loopback) { state = ready_as Role.admin none }))
        ↔ IsLocalAdmin toy admin_hello (context_of empty_registry) (new loopback))
hello_ready_iff_example =
    hello_ready_iff toy (ok nonce) admin_hello (context_of empty_registry) (new loopback)

local_admin_ready :
    is_made_ready toy
      (handle_hello toy (ok nonce) admin_hello (context_of empty_registry) (new loopback)).0
    ≡ true
local_admin_ready =
    (hello_ready_iff toy (ok nonce) admin_hello (context_of empty_registry) (new loopback)).0.1
      local_admin

abbrev pub deck_session : Session
deck_session = record {
  peer = remote;
  state = ready_as Role.deck (some some_id);
  profile_subscribed = false;
  telemetry_subscribed = false;
}

authorize_iff_example : (authorize (known_op pair_begin) deck_session ≡ ok pair_begin) ↔ (
    (known_op pair_begin ≡ known_op pair_begin)
    × Allowed (access_for pair_begin) (role deck_session))
authorize_iff_example = authorize_iff (known_op pair_begin) pair_begin deck_session

unauthenticated_tells_ops_apart_example :
    (Errors.to_payload (wire unknown_op_code "no such op: x")).code
    ≢ (Errors.to_payload unauthenticated_error).code
unfolding is_ready new access_for authorize muxdeck.Protocol.Ops.known muxdeck.Prelude.Text.format
    muxdeck.Protocol.Ops.as_str
unauthenticated_tells_ops_apart_example =
    unauthenticated_tells_ops_apart "x" system_ping (new remote)
      (wire unknown_op_code "no such op: x") unauthenticated_error refl (inl refl) refl refl

abbrev pub window : PairingWindow
window = record { code = "012345"; opened_at = 0; ttl = 120 * nanos_per_second; expires_at = 1120 }

abbrev pub pair_request : PairRequest
pair_request = record {
  code = "012345";
  device_pubkey = encode some_key;
  device_name = "tablet";
  platform = Platform.android;
  proof = encode (signature_of (pair_proof_message "012345" some_key));
}

verify_pair_request_iff_example :
    (verify_pair_request toy 1000 (some window) pair_request ≡ ok some_key)
    ↔ IsProven toy 1000 (some window) pair_request some_key
verify_pair_request_iff_example =
    verify_pair_request_iff toy 1000 (some window) pair_request some_key

pair_request_accepted : verify_pair_request toy 1000 (some window) pair_request ≡ ok some_key
unfolding verify_pair_request constant_time_eq as_bytes toy pair_proof_message
pair_request_accepted = refl
