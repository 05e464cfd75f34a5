-- ===== src/Engine/Server/Sound.antt =====
-- What holds of the shared state whatever requests arrive.
pub mod Devices
pub mod Contents
pub mod Trace
use muxdeck.Prelude.{
  ℕ, String, ◌≡◌, refl, sym, subst, Bool, true, false, Option, none, some, List, [], ◌∷◌, arith,
  if◌then◌else◌, Result, ok, err, Result-cases, Option-cases, Bool-cases, inl, inr, unwrap_or,
}
use muxdeck.Protocol.KnownOps
use muxdeck.Protocol.KnownOps.{KnownOp}
use muxdeck.Protocol.Envelope.{Envelope, is_supported_version}
use muxdeck.Protocol.Session.{Role, HelloRequest, AuthRequest, HelloResponse, Ready}
use muxdeck.Protocol.Pairing
use muxdeck.Protocol.Pairing.{PairRequest, PairBeginRequest, PairRevokeRequest}
use muxdeck.Protocol.Profiles.{
  Profile, ProfileWrapper, ProfileGetRequest, ProfileActivateRequest, ProfileDeleteRequest,
}
use muxdeck.Protocol.Actions.{ActionRunRequest, ActionSetRequest, ActionDeleteRequest}
use muxdeck.Protocol.Settings.{Settings, SettingsPatch}
use muxdeck.Engine.Errors.{EngineError, Outcome}
use muxdeck.Engine.Crypto.{Crypto, Base64Law}
use muxdeck.Engine.Disk.{Fs, Attempt}
use muxdeck.Engine.Registry
use muxdeck.Engine.Registry.{Registry}
use muxdeck.Engine.Registry.Keys
use muxdeck.Engine.Registry.Keys.{insert-IsValid, revoke-IsValid, touch-IsValid}
use muxdeck.Engine.Pairing.{PairingWindow, verify_pair_request}
use muxdeck.Engine.Actions
use muxdeck.Engine.Actions.{ActionStore}
use muxdeck.Engine.Actions.Shell
use muxdeck.Engine.Actions.Shell.{set_call, delete_call, perform, perform-IsValid}
use muxdeck.Engine.Session.{Session, role, device_id, handle_hello, handle_auth}
use muxdeck.Engine.Dispatch.{authorize}
use muxdeck.Engine.Backend.{InputBackend}
use muxdeck.Engine.Store
use muxdeck.Engine.Store.{Store}
use muxdeck.Engine.Store.Pointer
use muxdeck.Engine.Store.Pointer.{set-IsValid, delete-IsValid, activate-IsValid}
use muxdeck.Engine.InputDispatch
use muxdeck.Engine.InputDispatch.{Runtime, World}
use muxdeck.Engine.Host.{
  Engine, Machine, mark_connected, mark_disconnected, close_pairing, open_pairing, pairing_window,
  run_action, apply_settings,
}
use muxdeck.Engine.Host.Settled.{apply_settings_frame}
use muxdeck.Engine.Server.State.{
  Json, Codecs, Env, App, Handled, payload, publish_devices, context, ping_reply,
}
use muxdeck.Engine.Server.Devices.{
  on_hello, on_auth, on_pair_request, on_pair_begin, on_pair_cancel, on_pair_revoke, arrive,
  registered, opened, revoked, answer_hello, answer_auth,
}
use muxdeck.Engine.Server.Content.{
  on_profile_get, on_profile_list, on_profile_set, on_profile_activate, on_profile_delete,
  on_action_run, on_action_list, on_action_set, on_action_delete, on_settings_set, stored, switched,
  publish_active, ran, changed, applied,
}

-- The registry, the layouts and the actions are all in order.
pub record IsSound {Value Desk : Type 0} (c : Crypto) (app : App Value Desk) : Type 0 where
  pub registry : Keys.IsValid c app.engine.registry
  pub layouts : Pointer.IsValid app.store
  pub actions : Shell.IsValid app.engine.actions
