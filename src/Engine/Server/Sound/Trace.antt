-- ===== src/Engine/Server/Sound/Trace.antt =====
-- Soundness of the shared state over every run of requests and ends of sockets.
use muxdeck.Prelude.{String, Result, ok, err, Result-cases, Option-cases, Bool-cases, inl, inr}
use muxdeck.Protocol.KnownOps.{KnownOp}
use muxdeck.Protocol.Envelope.{Envelope, is_supported_version}
use muxdeck.Engine.Errors.{Outcome}
use muxdeck.Engine.Crypto.{Crypto, Base64Law}
use muxdeck.Engine.Session.{Session, device_id}
use muxdeck.Engine.Dispatch.{authorize}
use muxdeck.Engine.Backend.{InputBackend}
use muxdeck.Engine.InputDispatch
use muxdeck.Engine.InputDispatch.{Runtime, World}
use muxdeck.Engine.Host.{mark_disconnected}
use muxdeck.Engine.Server.State.{
  Json, Codecs, Env, App, Handled, payload, ping_reply, publish_devices,
}
use muxdeck.Engine.Server.Devices.{
  on_hello, on_auth, on_pair_request, on_pair_begin, on_pair_revoke,
}
use muxdeck.Engine.Server.Content.{
  on_profile_get, on_profile_set, on_profile_activate, on_profile_delete, on_action_run,
  on_settings_set,
}
use muxdeck.Engine.Server.{
  handle_op, handle_input, handle_envelope, route, is_input, decoding, injected,
}
use muxdeck.Engine.Server.Connection.{close}
use muxdeck.Engine.Server.Sound.{IsSound}
use muxdeck.Engine.Server.Sound.Devices.{
  on_hello-IsSound, on_auth-IsSound, on_pair_request-IsSound, on_pair_begin-IsSound,
  on_pair_cancel-IsSound, on_pair_revoke-IsSound,
}
use muxdeck.Engine.Server.Sound.Contents.{
  on_profile_get-IsSound, on_profile_set-IsSound, on_profile_activate-IsSound,
  on_profile_delete-IsSound, on_action_run-IsSound, on_action_set-IsSound, on_action_delete-IsSound,
  on_settings_set-IsSound,
}

module _ {Value Int Float Desk : Type 0} (c : Crypto) (json : Json Value Int Float)
    (codecs : Codecs Value) (runtime : Runtime Desk) (backend : InputBackend Int Float Desk) where
  -- The states that requests and ends of sockets lead to, each handler taken as one step. Every
  -- request comes with a session of its own and with what the host answers to it.
  pub data Reaches (start : App Value Desk) : App Value Desk → Type 0 where
    started : Reaches start start
    requested :
        {app : App Value Desk} (env : Env) (e : Envelope Value) (s : Session)
        → Reaches start app
        → Reaches start (route c json codecs runtime backend env e app s).1
    closed : {app : App Value Desk} (s : Session) → Reaches start app → Reaches start (close s app)

  module _ (law : Base64Law c) where
    close-IsSound : (s : Session) (app : App Value Desk) → IsSound c app → IsSound c (close s app)
    unfolding close mark_disconnected publish_devices
    close-IsSound s app v = elim (Option-cases (device_id s)) [
      | inl e ↦ rw (e, close) v
      | inr (id, e) ↦
          rw (e, close) (record { registry = v.registry; layouts = v.layouts; actions = v.actions })
    ]

    module _ (env : Env) where
      decoding-IsSound :
          {T : Type 0} (decoded : Result T String)
          (handler : T → App Value Desk → Session → Handled Value Desk) (app : App Value Desk)
          (s : Session)
          → IsSound c app
          → ((request : T) → IsSound c (handler request app s).1)
          → IsSound c (decoding c json codecs runtime backend env decoded handler app s).1
      decoding-IsSound (ok request) handler app s v k = k request
      decoding-IsSound (err e) handler app s v k = v

      injected-IsSound :
          (app : App Value Desk) (x : Outcome (Unit {0}) × World Desk) (s : Session)
          → IsSound c app
          → IsSound c (injected c json codecs runtime backend env app x s).1
      injected-IsSound app (err e, w) s v = record {
        registry = v.registry;
        layouts = v.layouts;
        actions = v.actions;
      }
      injected-IsSound app (ok _, w) s v = record {
        registry = v.registry;
        layouts = v.layouts;
        actions = v.actions;
      }

      handle_op-IsSound :
          (op : KnownOp) (d : Value) (app : App Value Desk) (s : Session)
          → IsSound c app
          → IsSound c (handle_op c json codecs runtime backend env op d app s).1
      unfolding handle_op
      handle_op-IsSound KnownOp.session_hello d app s v =
          decoding-IsSound (json.hello d) (on_hello c codecs env) app s v
            (λ r. on_hello-IsSound c law codecs env r app s v)
      handle_op-IsSound KnownOp.session_auth d app s v =
          decoding-IsSound (json.auth d) (on_auth c codecs env) app s v
            (λ r. on_auth-IsSound c law codecs env r app s v)
      handle_op-IsSound KnownOp.pair_request d app s v =
          decoding-IsSound (json.pair_request d) (on_pair_request c codecs env) app s v
            (λ r. on_pair_request-IsSound c law codecs env r app s v)
      handle_op-IsSound KnownOp.pair_begin d app s v =
          decoding-IsSound (json.pair_begin d) (on_pair_begin c codecs env) app s v
            (λ r. on_pair_begin-IsSound c law codecs env r app s v)
      handle_op-IsSound KnownOp.pair_revoke d app s v =
          decoding-IsSound (json.pair_revoke d) (on_pair_revoke c codecs env) app s v
            (λ r. on_pair_revoke-IsSound c law codecs env r app s v)
      handle_op-IsSound KnownOp.pair_cancel d app s v =
          on_pair_cancel-IsSound c law codecs env app s v
      handle_op-IsSound KnownOp.system_ping d app s v =
          decoding-IsSound (json.ping d)
            (λ t_client app s. (ok (ping_reply t_client env.unix_millis), app, s)) app s v (λ r. v)
      handle_op-IsSound KnownOp.profile_get d app s v =
          decoding-IsSound (json.profile_get d) (on_profile_get codecs env) app s v
            (λ r. on_profile_get-IsSound c codecs env r app s v)
      handle_op-IsSound KnownOp.profile_set d app s v =
          decoding-IsSound (json.profile_set d) (on_profile_set codecs env) app s v
            (λ r. on_profile_set-IsSound c codecs env r app s v)
      handle_op-IsSound KnownOp.profile_activate d app s v =
          decoding-IsSound (json.profile_activate d) (on_profile_activate codecs env) app s v
            (λ r. on_profile_activate-IsSound c codecs env r app s v)
      handle_op-IsSound KnownOp.profile_delete d app s v =
          decoding-IsSound (json.profile_delete d) (on_profile_delete codecs env) app s v
            (λ r. on_profile_delete-IsSound c codecs env r app s v)
      handle_op-IsSound KnownOp.action_run d app s v =
          decoding-IsSound (json.action_run d) (on_action_run codecs env) app s v
            (λ r. on_action_run-IsSound c codecs env r app s v)
      handle_op-IsSound KnownOp.settings_set d app s v =
          decoding-IsSound (json.settings_set d) (on_settings_set codecs env) app s v
            (λ r. on_settings_set-IsSound c codecs env r app s v)
      handle_op-IsSound KnownOp.action_set d app s v =
          on_action_set-IsSound c codecs env (payload (json.action_set d)) app s v
      handle_op-IsSound KnownOp.action_delete d app s v =
          on_action_delete-IsSound c codecs env (payload (json.action_delete d)) app s v
      handle_op-IsSound KnownOp.action_list d app s v = v
      handle_op-IsSound KnownOp.profile_list d app s v = v
      handle_op-IsSound KnownOp.profile_subscribe d app s v = v
      handle_op-IsSound KnownOp.telemetry_subscribe d app s v = v
      handle_op-IsSound KnownOp.pair_list_devices d app s v = v
      handle_op-IsSound KnownOp.settings_get d app s v = v
      handle_op-IsSound _ d app s v = v

      handle_input-IsSound :
          (op : KnownOp) (d : Value) (app : App Value Desk) (s : Session)
          → IsSound c app
          → IsSound c (handle_input c json codecs runtime backend env op d app s).1
      unfolding handle_input
      handle_input-IsSound KnownOp.input_key_combo d app s v =
          decoding-IsSound (json.key_combo d)
            (λ request app s.
              injected c json codecs runtime backend env app
                (InputDispatch.key_combo runtime backend request app.input) s)
            app s v
            (λ r. injected-IsSound app (InputDispatch.key_combo runtime backend r app.input) s v)
      handle_input-IsSound KnownOp.input_key_sequence d app s v =
          decoding-IsSound (json.key_sequence d)
            (λ request app s.
              injected c json codecs runtime backend env app
                (InputDispatch.key_sequence runtime backend request app.input) s)
            app s v
            (λ r. injected-IsSound app (InputDispatch.key_sequence runtime backend r app.input) s v)
      handle_input-IsSound KnownOp.input_text d app s v =
          decoding-IsSound (json.text d)
            (λ request app s.
              injected c json codecs runtime backend env app
                (InputDispatch.text runtime backend request app.input) s)
            app s v (λ r. injected-IsSound app (InputDispatch.text runtime backend r app.input) s v)
      handle_input-IsSound KnownOp.input_media d app s v =
          decoding-IsSound (json.media d)
            (λ request app s.
              injected c json codecs runtime backend env app
                (InputDispatch.media runtime backend request app.input) s)
            app s v
            (λ r. injected-IsSound app (InputDispatch.media runtime backend r app.input) s v)
      handle_input-IsSound KnownOp.input_mouse d app s v =
          decoding-IsSound (json.mouse d)
            (λ request app s.
              injected c json codecs runtime backend env app
                (InputDispatch.mouse runtime backend request app.input) s)
            app s v
            (λ r. injected-IsSound app (InputDispatch.mouse runtime backend r app.input) s v)
      handle_input-IsSound _ d app s v = v

      handle_envelope-IsSound :
          (e : Envelope Value) (app : App Value Desk) (s : Session)
          → IsSound c app
          → IsSound c (handle_envelope c json codecs runtime backend env e app s).1
      unfolding handle_envelope
      handle_envelope-IsSound e app s v = elim (Bool-cases (is_supported_version e)) [
        | inr x ↦ rw (x, handle_envelope) v
        | inl x ↦ elim (Result-cases (authorize e.op s)) [
          | inr (y, denied) ↦ rw (x, denied, handle_envelope) v
          | inl (op, granted) ↦ rw (x, granted, handle_envelope) (handle_op-IsSound op e.d app s v)
        ]
      ]

      route-IsSound :
          (e : Envelope Value) (app : App Value Desk) (s : Session)
          → IsSound c app
          → IsSound c (route c json codecs runtime backend env e app s).1
      unfolding route
      route-IsSound e app s v = elim (Bool-cases (is_supported_version e)) [
        | inr x ↦ rw (x, route) v
        | inl x ↦ elim (Result-cases (authorize e.op s)) [
          | inr (y, denied) ↦ rw (x, denied, route) v
          | inl (op, granted) ↦ elim (Bool-cases (is_input op)) [
            | inl i ↦ rw (x, granted, i, route) (handle_input-IsSound op e.d app s v)
            | inr i ↦ rw (x, granted, i, route) (handle_envelope-IsSound e app s v)
          ]
        ]
      ]

    -- Whatever requests arrive on whatever sockets, in whatever order, one handled after the other, and
    -- whatever the disk, the random source and the host answer to each of them: as long as base64 reads
    -- back what it wrote, a host that starts with a sound registry, sound layouts and sound actions
    -- keeps them so. Every device stands under its own id with a key that loads, the active layout
    -- exists and every layout is checked, and every action has an id and a command.
    pub Reaches-IsSound :
        {start app : App Value Desk} → Reaches start app → IsSound c start → IsSound c app
    Reaches-IsSound started v = v
    Reaches-IsSound (requested {app = before} env e s reached) v =
        route-IsSound env e before s (Reaches-IsSound reached v)
    Reaches-IsSound (closed {app = before} s reached) v =
        close-IsSound s before (Reaches-IsSound reached v)
