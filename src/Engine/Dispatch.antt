-- ===== src/Engine/Dispatch.antt =====
-- Which role may invoke which op: engine/crates/muxdeck-engine/src/dispatch.rs.
pub mod Matrix
use muxdeck.Prelude.{
  String, Bool, Option, none, some, [], ◌∷◌, if◌then◌else◌, Result, ok, err, ok_or, ◌>>=◌,
}
use muxdeck.Prelude.Text.{format}
use muxdeck.Protocol.KnownOps.{
  KnownOp, session_hello, session_auth, pair_request, pair_begin, pair_cancel, pair_list_devices,
  pair_revoke, system_ping, input_key_combo, input_key_sequence, input_text, input_media,
  input_mouse, action_run, action_list, profile_get, profile_list, profile_subscribe,
  telemetry_subscribe, profile_activate, action_set, action_delete, profile_set, profile_delete,
  settings_get, settings_set, profile_changed, telemetry_update, device_changed, pairing_state,
  engine_shutdown,
}
use muxdeck.Protocol.Ops
use muxdeck.Protocol.Ops.{Op, known}
use muxdeck.Protocol.Errors.{bad_request, unknown_op, not_authenticated, not_authorized}
use muxdeck.Protocol.Session.{Role}
use muxdeck.Engine.Errors.{EngineError, Outcome, wire}
use muxdeck.Engine.Session.{Session, is_ready, role}

pub data Access : Type 0 where
  pre_auth authenticated admin_only event_only : Access

-- The capability matrix.
unfoldable pub access_for : KnownOp → Access
access_for session_hello = pre_auth
access_for session_auth = pre_auth
access_for pair_request = pre_auth
access_for pair_begin = admin_only
access_for pair_cancel = admin_only
access_for pair_list_devices = admin_only
access_for pair_revoke = admin_only
access_for system_ping = authenticated
access_for input_key_combo = authenticated
access_for input_key_sequence = authenticated
access_for input_text = authenticated
access_for input_media = authenticated
access_for input_mouse = authenticated
access_for action_run = authenticated
access_for action_list = authenticated
access_for profile_get = authenticated
access_for profile_list = authenticated
access_for profile_subscribe = authenticated
access_for telemetry_subscribe = authenticated
access_for profile_activate = authenticated
access_for action_set = admin_only
access_for action_delete = admin_only
access_for profile_set = admin_only
access_for profile_delete = admin_only
access_for settings_get = admin_only
access_for settings_set = admin_only
access_for profile_changed = event_only
access_for telemetry_update = event_only
access_for device_changed = event_only
access_for pairing_state = event_only
access_for engine_shutdown = event_only

abbrev pub unauthenticated_error : EngineError
unauthenticated_error = wire not_authenticated "this op requires a completed session handshake"

-- The `AdminOnly` arm, on the session's role.
admin_arm : KnownOp → Option Role → Outcome KnownOp
admin_arm op (some Role.admin) = ok op
admin_arm op (some Role.deck) = err (wire not_authorized "role 'deck' may not call this op")
admin_arm op none = err unauthenticated_error

access_arm : Access → KnownOp → Session → Outcome KnownOp
unfolding admin_arm is_ready role
access_arm pre_auth op s =
    if is_ready s
    then err (wire bad_request "this op is only valid before the session handshake completes")
    else ok op
access_arm authenticated op s = if is_ready s then ok op else err unauthenticated_error
access_arm admin_only op s = admin_arm op (role s)
access_arm event_only op s =
    err (wire unknown_op "this op is an event pushed by the engine and cannot be sent to it")

unfoldable pub authorize : Op → Session → Outcome KnownOp
unfolding access_arm
authorize op s = do
  op' ← ok_or (known op) (wire unknown_op (format ("no such op: " ∷ Ops.as_str op ∷ [])))
  access_arm (access_for op') op' s
