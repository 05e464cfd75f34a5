-- ===== src/Engine/Server.antt =====
-- The socket server's routing: `route`, `handle_envelope`, `handle_input` of
-- engine/crates/muxdeck-engine/src/server.rs. A panic of `unreachable!` is an error with the code
-- of an internal one; `route` never gets there.
pub mod State
pub mod Devices
pub mod Content
pub mod Keeps
pub mod Access
pub mod Connection
pub mod Once
pub mod Window
pub mod Closed
pub mod Race
pub mod Loop
pub mod Frames
pub mod Sound
pub mod Moves
pub mod Live
pub mod Remote
use muxdeck.Prelude.{
  ℕ, String, Bool, true, false, Option, none, some, List, [], ◌∷◌, if◌then◌else◌, Result, ok, err,
}
use muxdeck.Prelude.Text.{format, to_string}
use muxdeck.Protocol.KnownOps
use muxdeck.Protocol.KnownOps.{KnownOp}
use muxdeck.Protocol.Envelope.{Envelope, is_supported_version}
use muxdeck.Protocol.Errors.{unsupported_version, unknown_op, internal}
use muxdeck.Engine.Errors.{EngineError, Outcome, wire}
use muxdeck.Engine.Crypto.{Crypto}
use muxdeck.Engine.Session.{Session, subscribe_profile, subscribe_telemetry}
use muxdeck.Engine.Dispatch.{authorize}
use muxdeck.Engine.Backend.{InputBackend}
use muxdeck.Engine.InputDispatch
use muxdeck.Engine.InputDispatch.{Runtime, World}
use muxdeck.Engine.Host.{list_devices}
use muxdeck.Engine.Server.State.{
  Json, payload, Reply, devices_reply, ping_reply, settings_reply, empty_reply, Codecs, Env, App,
  Handled,
}
use muxdeck.Engine.Server.Devices.{
  on_hello, on_auth, on_pair_request, on_pair_begin, on_pair_cancel, on_pair_revoke,
}
use muxdeck.Engine.Server.Content.{
  on_profile_get, on_profile_list, on_profile_set, on_profile_activate, on_profile_delete,
  on_action_run, on_action_list, on_action_set, on_action_delete, on_settings_set,
}

abbrev pub panicked : EngineError
panicked =
    wire internal "internal error: entered unreachable code: input ops are routed before this point"

abbrev pub is_input : KnownOp → Bool
is_input KnownOp.input_key_combo = true
is_input KnownOp.input_key_sequence = true
is_input KnownOp.input_text = true
is_input KnownOp.input_media = true
is_input KnownOp.input_mouse = true
is_input _ = false

module _ {Value Int Float Desk : Type 0} (c : Crypto) (json : Json Value Int Float)
    (codecs : Codecs Value) (runtime : Runtime Desk) (backend : InputBackend Int Float Desk)
    (env : Env) where
  -- `let request = payload(envelope.d)?`, then the rest of the arm.
  abbrev pub decoding :
      {T : Type 0}
      → Result T String
      → (T → App Value Desk → Session → Handled Value Desk)
      → App Value Desk
      → Session
      → Handled Value Desk
  decoding decoded handler app s = elim (payload decoded) [
    | err e ↦ (err e, app, s)
    | ok request ↦ handler request app s
  ]

  -- The `match op` of `handle_envelope`.
  unfoldable pub handle_op : KnownOp → Value → App Value Desk → Session → Handled Value Desk
  unfolding on_hello on_auth on_pair_request on_pair_begin on_pair_cancel on_pair_revoke
      list_devices on_profile_get on_profile_list on_profile_set on_profile_activate
      on_profile_delete on_action_run on_action_list on_action_set on_action_delete on_settings_set
      subscribe_profile subscribe_telemetry
  handle_op KnownOp.session_hello d app s = decoding (json.hello d) (on_hello c codecs env) app s
  handle_op KnownOp.session_auth d app s = decoding (json.auth d) (on_auth c codecs env) app s
  handle_op KnownOp.pair_request d app s =
      decoding (json.pair_request d) (on_pair_request c codecs env) app s
  handle_op KnownOp.pair_begin d app s =
      decoding (json.pair_begin d) (on_pair_begin c codecs env) app s
  handle_op KnownOp.pair_cancel d app s = on_pair_cancel c codecs env app s
  handle_op KnownOp.pair_list_devices d app s =
      (ok (devices_reply (list_devices app.engine)), app, s)
  handle_op KnownOp.pair_revoke d app s =
      decoding (json.pair_revoke d) (on_pair_revoke c codecs env) app s
  handle_op KnownOp.system_ping d app s =
      decoding (json.ping d) (λ t_client app s. (ok (ping_reply t_client env.unix_millis), app, s))
        app s
  handle_op KnownOp.profile_get d app s =
      decoding (json.profile_get d) (on_profile_get codecs env) app s
  handle_op KnownOp.profile_list d app s = on_profile_list codecs env app s
  handle_op KnownOp.profile_subscribe d app s = (ok empty_reply, app, subscribe_profile s)
  handle_op KnownOp.profile_set d app s =
      decoding (json.profile_set d) (on_profile_set codecs env) app s
  handle_op KnownOp.profile_activate d app s =
      decoding (json.profile_activate d) (on_profile_activate codecs env) app s
  handle_op KnownOp.profile_delete d app s =
      decoding (json.profile_delete d) (on_profile_delete codecs env) app s
  handle_op KnownOp.telemetry_subscribe d app s = (ok empty_reply, app, subscribe_telemetry s)
  handle_op KnownOp.action_run d app s =
      decoding (json.action_run d) (on_action_run codecs env) app s
  handle_op KnownOp.action_list d app s = on_action_list codecs env app s
  handle_op KnownOp.action_set d app s =
      on_action_set codecs env (payload (json.action_set d)) app s
  handle_op KnownOp.action_delete d app s =
      on_action_delete codecs env (payload (json.action_delete d)) app s
  handle_op KnownOp.settings_get d app s = (ok (settings_reply app.engine.settings), app, s)
  handle_op KnownOp.settings_set d app s =
      decoding (json.settings_set d) (on_settings_set codecs env) app s
  handle_op KnownOp.input_key_combo d app s = (err panicked, app, s)
  handle_op KnownOp.input_key_sequence d app s = (err panicked, app, s)
  handle_op KnownOp.input_text d app s = (err panicked, app, s)
  handle_op KnownOp.input_media d app s = (err panicked, app, s)
  handle_op KnownOp.input_mouse d app s = (err panicked, app, s)
  handle_op op d app s = (
    err (wire unknown_op (format (KnownOps.as_str op ∷ " is an event, not a request" ∷ []))),
    app,
    s,
  )

  abbrev pub injected :
      App Value Desk → Outcome (Unit {0}) × World Desk → Session → Handled Value Desk
  injected app (err e, w) s = (err e, record app { input = w }, s)
  injected app (ok _, w) s = (ok empty_reply, record app { input = w }, s)

  -- `handle_input`, on one of the five input ops.
  unfoldable pub handle_input : KnownOp → Value → App Value Desk → Session → Handled Value Desk
  unfolding InputDispatch.key_combo InputDispatch.key_sequence InputDispatch.text
      InputDispatch.media InputDispatch.mouse
  handle_input KnownOp.input_key_combo d app s =
      decoding (json.key_combo d)
        (λ request app s.
          injected app (InputDispatch.key_combo runtime backend request app.input) s)
        app s
  handle_input KnownOp.input_key_sequence d app s =
      decoding (json.key_sequence d)
        (λ request app s.
          injected app (InputDispatch.key_sequence runtime backend request app.input) s)
        app s
  handle_input KnownOp.input_text d app s =
      decoding (json.text d)
        (λ request app s. injected app (InputDispatch.text runtime backend request app.input) s) app
        s
  handle_input KnownOp.input_media d app s =
      decoding (json.media d)
        (λ request app s. injected app (InputDispatch.media runtime backend request app.input) s)
        app s
  handle_input KnownOp.input_mouse d app s =
      decoding (json.mouse d)
        (λ request app s. injected app (InputDispatch.mouse runtime backend request app.input) s)
        app s
  handle_input op d app s = (err panicked, app, s)

  abbrev unsupported : ℕ → EngineError
  unsupported v =
      wire unsupported_version
        (format ("protocol version " ∷ to_string v ∷ " is not supported" ∷ []))

  unfoldable pub handle_envelope : Envelope Value → App Value Desk → Session → Handled Value Desk
  unfolding authorize handle_op is_supported_version
  handle_envelope e app s =
      if is_supported_version e
      then elim (authorize e.op s) [
        | err error ↦ (err error, app, s)
        | ok op ↦ handle_op op e.d app s
      ]
      else (err (unsupported e.v), app, s)

  unfoldable pub route : Envelope Value → App Value Desk → Session → Handled Value Desk
  unfolding authorize handle_input handle_envelope is_supported_version
  route e app s =
      if is_supported_version e
      then elim (authorize e.op s) [
        | err error ↦ (err error, app, s)
        | ok op ↦ if is_input op then handle_input op e.d app s else handle_envelope e app s
      ]
      else (err (unsupported e.v), app, s)
