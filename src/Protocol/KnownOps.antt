-- ===== src/Protocol/KnownOps.antt =====
-- Operation names known to the protocol: `KnownOp` of engine/crates/muxdeck-core/src/envelope.rs.
use muxdeck.Prelude.{String, Bool, true, false, List, [], ◌∷◌}

pub data KnownOp : Type 0 where
  session_hello session_auth pair_request pair_begin pair_cancel pair_list_devices pair_revoke :
      KnownOp
  system_ping input_key_combo input_key_sequence input_text input_media input_mouse action_run :
      KnownOp
  action_list action_set action_delete profile_get profile_list profile_subscribe : KnownOp
  profile_activate profile_set profile_delete telemetry_subscribe settings_get settings_set :
      KnownOp
  profile_changed telemetry_update device_changed pairing_state engine_shutdown : KnownOp

unfoldable pub as_str : KnownOp → String
as_str session_hello = "session.hello"
as_str session_auth = "session.auth"
as_str pair_request = "pair.request"
as_str pair_begin = "pair.begin"
as_str pair_cancel = "pair.cancel"
as_str pair_list_devices = "pair.list_devices"
as_str pair_revoke = "pair.revoke"
as_str system_ping = "system.ping"
as_str input_key_combo = "input.key_combo"
as_str input_key_sequence = "input.key_sequence"
as_str input_text = "input.text"
as_str input_media = "input.media"
as_str input_mouse = "input.mouse"
as_str action_run = "action.run"
as_str action_list = "action.list"
as_str action_set = "action.set"
as_str action_delete = "action.delete"
as_str profile_get = "profile.get"
as_str profile_list = "profile.list"
as_str profile_subscribe = "profile.subscribe"
as_str profile_activate = "profile.activate"
as_str profile_set = "profile.set"
as_str profile_delete = "profile.delete"
as_str telemetry_subscribe = "telemetry.subscribe"
as_str settings_get = "settings.get"
as_str settings_set = "settings.set"
as_str profile_changed = "profile.changed"
as_str telemetry_update = "telemetry.update"
as_str device_changed = "device.changed"
as_str pairing_state = "pairing.state"
as_str engine_shutdown = "engine.shutdown"

-- The ops that only ever appear as `t: "evt"`.
unfoldable pub is_event : KnownOp → Bool
is_event profile_changed = true
is_event telemetry_update = true
is_event device_changed = true
is_event pairing_state = true
is_event engine_shutdown = true
is_event _ = false

-- `KnownOp::ALL`
abbrev pub all : List KnownOp
all =
    session_hello ∷ session_auth ∷ pair_request ∷ pair_begin ∷ pair_cancel ∷ pair_list_devices
    ∷ pair_revoke ∷ system_ping ∷ input_key_combo ∷ input_key_sequence ∷ input_text ∷ input_media
    ∷ input_mouse ∷ action_run ∷ action_list ∷ action_set ∷ action_delete ∷ profile_get
    ∷ profile_list ∷ profile_subscribe ∷ profile_activate ∷ profile_set ∷ profile_delete
    ∷ telemetry_subscribe ∷ settings_get ∷ settings_set ∷ profile_changed ∷ telemetry_update
    ∷ device_changed ∷ pairing_state ∷ engine_shutdown ∷ []
