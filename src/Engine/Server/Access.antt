-- ===== src/Engine/Server/Access.antt =====
-- What a request can change, by the role of its socket.
use muxdeck.Prelude.{
  ◌≡◌, ◌≢◌, refl, false, some, arith, ok, err, Result-cases, Bool-cases, inl, inr, ◌⊎◌,
}
use muxdeck.Protocol.KnownOps.{KnownOp}
use muxdeck.Protocol.Envelope.{Envelope, is_supported_version}
use muxdeck.Protocol.Session.{Role}
use muxdeck.Engine.Errors.{EngineError}
use muxdeck.Engine.Crypto.{Crypto}
use muxdeck.Engine.Session.{Session, role}
use muxdeck.Engine.Dispatch.{admin_only, access_for, authorize}
use muxdeck.Engine.Dispatch.Matrix.{Allowed, authorize_iff}
use muxdeck.Engine.Backend.{InputBackend}
use muxdeck.Engine.InputDispatch
use muxdeck.Engine.InputDispatch.{Runtime, World}
use muxdeck.Engine.Server.State.{Json, Codecs, Env, App, ping_reply}
use muxdeck.Engine.Server.Devices.{on_hello, on_auth, on_pair_request}
use muxdeck.Engine.Server.Content.{on_profile_get, on_profile_activate, on_action_run}
use muxdeck.Engine.Server.{handle_op, handle_input, handle_envelope, route, is_input}
use muxdeck.Engine.Server.Keeps.{
  Keeps, decoding-Keeps, injecting-Keeps, on_hello-Keeps, on_auth-Keeps, on_pair_request-Keeps,
  profile_get-Keeps, activate-Keeps, action_run-Keeps, Keeps-refl,
}

module _ {Value Int Float Desk : Type 0} (c : Crypto) (json : Json Value Int Float)
    (codecs : Codecs Value) (runtime : Runtime Desk) (backend : InputBackend Int Float Desk)
    (env : Env) where
  pub handle_op-Keeps :
      (op : KnownOp) (d : Value) (app : App Value Desk) (s : Session)
      → access_for op ≢ admin_only
      → Keeps app (handle_op c json codecs runtime backend env op d app s).1
  unfolding handle_op access_for
  handle_op-Keeps KnownOp.session_hello d app s h =
      decoding-Keeps c json codecs runtime backend env (json.hello d) (on_hello c codecs env) app s
        (λ r. on_hello-Keeps c codecs env r app s)
  handle_op-Keeps KnownOp.session_auth d app s h =
      decoding-Keeps c json codecs runtime backend env (json.auth d) (on_auth c codecs env) app s
        (λ r. on_auth-Keeps c codecs env r app s)
  handle_op-Keeps KnownOp.pair_request d app s h =
      decoding-Keeps c json codecs runtime backend env (json.pair_request d)
        (on_pair_request c codecs env) app s (λ r. on_pair_request-Keeps c codecs env r app s)
  handle_op-Keeps KnownOp.system_ping d app s h =
      decoding-Keeps c json codecs runtime backend env (json.ping d)
        (λ t_client app s. (ok (ping_reply t_client env.unix_millis), app, s)) app s
        (λ r. Keeps-refl app)
  handle_op-Keeps KnownOp.profile_get d app s h =
      decoding-Keeps c json codecs runtime backend env (json.profile_get d)
        (on_profile_get codecs env) app s (λ r. profile_get-Keeps codecs env r app s)
  handle_op-Keeps KnownOp.profile_list d app s h = Keeps-refl app
  handle_op-Keeps KnownOp.profile_subscribe d app s h = Keeps-refl app
  handle_op-Keeps KnownOp.profile_activate d app s h =
      decoding-Keeps c json codecs runtime backend env (json.profile_activate d)
        (on_profile_activate codecs env) app s (λ r. activate-Keeps codecs env r app s)
  handle_op-Keeps KnownOp.telemetry_subscribe d app s h = Keeps-refl app
  handle_op-Keeps KnownOp.action_run d app s h =
      decoding-Keeps c json codecs runtime backend env (json.action_run d)
        (on_action_run codecs env) app s (λ r. action_run-Keeps codecs env r app s)
  handle_op-Keeps KnownOp.action_list d app s h = Keeps-refl app
  handle_op-Keeps KnownOp.pair_begin d app s h = absurd (h refl)
  handle_op-Keeps KnownOp.pair_cancel d app s h = absurd (h refl)
  handle_op-Keeps KnownOp.pair_list_devices d app s h = absurd (h refl)
  handle_op-Keeps KnownOp.pair_revoke d app s h = absurd (h refl)
  handle_op-Keeps KnownOp.action_set d app s h = absurd (h refl)
  handle_op-Keeps KnownOp.action_delete d app s h = absurd (h refl)
  handle_op-Keeps KnownOp.profile_set d app s h = absurd (h refl)
  handle_op-Keeps KnownOp.profile_delete d app s h = absurd (h refl)
  handle_op-Keeps KnownOp.settings_get d app s h = absurd (h refl)
  handle_op-Keeps KnownOp.settings_set d app s h = absurd (h refl)
  handle_op-Keeps _ d app s h = Keeps-refl app

  pub handle_input-Keeps :
      (op : KnownOp) (d : Value) (app : App Value Desk) (s : Session)
      → Keeps app (handle_input c json codecs runtime backend env op d app s).1
  unfolding handle_input
  handle_input-Keeps KnownOp.input_key_combo d app s =
      injecting-Keeps c json codecs runtime backend env (json.key_combo d)
        (InputDispatch.key_combo runtime backend) app s
  handle_input-Keeps KnownOp.input_key_sequence d app s =
      injecting-Keeps c json codecs runtime backend env (json.key_sequence d)
        (InputDispatch.key_sequence runtime backend) app s
  handle_input-Keeps KnownOp.input_text d app s =
      injecting-Keeps c json codecs runtime backend env (json.text d)
        (InputDispatch.text runtime backend) app s
  handle_input-Keeps KnownOp.input_media d app s =
      injecting-Keeps c json codecs runtime backend env (json.media d)
        (InputDispatch.media runtime backend) app s
  handle_input-Keeps KnownOp.input_mouse d app s =
      injecting-Keeps c json codecs runtime backend env (json.mouse d)
        (InputDispatch.mouse runtime backend) app s
  handle_input-Keeps _ d app s = Keeps-refl app

  Allowed-ne-admin :
      (op : KnownOp) (s : Session)
      → role s ≢ some Role.admin
      → Allowed (access_for op) (role s)
      → access_for op ≢ admin_only
  Allowed-ne-admin op s other allowed e = ground arith

  handle_envelope-Keeps :
      (e : Envelope Value) (op : KnownOp) (app : App Value Desk) (s : Session)
      → authorize e.op s ≡ ok op
      → access_for op ≢ admin_only
      → Keeps app (handle_envelope c json codecs runtime backend env e app s).1
  unfolding handle_envelope
  handle_envelope-Keeps e op app s granted h = elim (Bool-cases (is_supported_version e)) [
    | inl v ↦ rw (v, granted, handle_envelope) (handle_op-Keeps op e.d app s h)
    | inr v ↦ rw (v, handle_envelope) (Keeps-refl app)
  ]

  -- A request on a socket that does not hold the admin role, whatever it says, changes no setting, no
  -- action and no stored layout, leaves the startup entry alone, and opens no pairing window: the
  -- window is as it was or closed.
  pub route-Keeps :
      (e : Envelope Value) (app : App Value Desk) (s : Session)
      → role s ≢ some Role.admin
      → Keeps app (route c json codecs runtime backend env e app s).1
  unfolding route
  route-Keeps e app s other = elim (Bool-cases (is_supported_version e)) [
    | inr v ↦ rw (v, route) (Keeps-refl app)
    | inl v ↦ elim (Result-cases (authorize e.op s)) [
      | inr (x, denied) ↦ rw (v, denied, route) (Keeps-refl app)
      | inl (op, granted) ↦
          let ordinary = Allowed-ne-admin op s other ((authorize_iff e.op op s).0 granted).1 in
          elim (Bool-cases (is_input op)) [
            | inl i ↦ rw (v, granted, i, route) (handle_input-Keeps op e.d app s)
            | inr i ↦ rw (v, granted, i, route) (handle_envelope-Keeps e op app s granted ordinary)
          ]
    ]
  ]

  -- A request that the version check or the matrix refuses changes nothing at all.
  pub route_refused :
      (e : Envelope Value) (app : App Value Desk) (s : Session)
      → (is_supported_version e ≡ false) ⊎ ((x : EngineError) × (authorize e.op s ≡ err x))
      → ((route c json codecs runtime backend env e app s).1 ≡ app)
        × ((route c json codecs runtime backend env e app s).2 ≡ s)
  unfolding route
  route_refused e app s (inl v) = rw (v, route) (refl, refl)
  route_refused e app s (inr (x, denied)) = elim (Bool-cases (is_supported_version e)) [
    | inl v ↦ rw (v, denied, route) (refl, refl)
    | inr v ↦ rw (v, route) (refl, refl)
  ]
