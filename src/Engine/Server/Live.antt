-- ===== src/Engine/Server/Live.antt =====
-- The session of a socket from its first message on, whatever else happens on the host: the
-- `Session` that `connection` of engine/crates/muxdeck-engine/src/server.rs lends to each handler.
use muxdeck.Prelude.{
  String, ◌≡◌, refl, sym, subst, List, [], ◌∷◌, Result, ok, err, Result-cases, Bool-cases, inl, inr,
  unwrap_or,
}
use muxdeck.Protocol.KnownOps.{KnownOp}
use muxdeck.Protocol.Envelope.{Envelope, is_supported_version}
use muxdeck.Protocol.Session.{Role}
use muxdeck.Protocol.Settings.{requires_restart}
use muxdeck.Engine.Crypto.{Crypto}
use muxdeck.Engine.Registry
use muxdeck.Engine.Registry.{Registry}
use muxdeck.Engine.Session.{Session, SocketAddr, new, role}
use muxdeck.Engine.Session.History.{Event, step, after, Justified, after-Justified}
use muxdeck.Engine.Dispatch.{authorize}
use muxdeck.Engine.Backend.{InputBackend}
use muxdeck.Engine.Store
use muxdeck.Engine.Store.{Store}
use muxdeck.Engine.InputDispatch
use muxdeck.Engine.InputDispatch.{Runtime, World}
use muxdeck.Engine.Host.{run_action, apply_settings}
use muxdeck.Engine.Server.State.{Json, Codecs, Env, App, Handled, payload, ping_reply}
use muxdeck.Engine.Server.Devices.{
  on_hello, on_auth, on_pair_request, on_pair_begin, on_pair_cancel, on_pair_revoke,
}
use muxdeck.Engine.Server.Content.{
  on_profile_get, on_profile_set, on_profile_activate, on_profile_delete, on_action_run,
  on_settings_set,
}
use muxdeck.Engine.Server.{
  handle_op, handle_input, handle_envelope, route, is_input, decoding, injected,
}
use muxdeck.Engine.Server.Moves.{
  Moves, action_delete_session, action_set_session, applied_session, auth-Moves, hello-Moves,
  injected_session, pair_begin_session, pair_request_session, profile_get_session, ran_session,
  revoked_session, stored_session, switched_session,
}

module _ {Value Int Float Desk : Type 0} (c : Crypto) (json : Json Value Int Float)
    (codecs : Codecs Value) (runtime : Runtime Desk) (backend : InputBackend Int Float Desk) where
  -- The sessions that a socket from this address can have: requests are served one at a time, each
  -- with the state of the host as the other sockets left it.
  pub data Serves (peer : SocketAddr) : Session → Type 0 where
    opened_socket : Serves peer (new peer)
    served :
        {s : Session} (env : Env) (e : Envelope Value) (app : App Value Desk)
        → Serves peer s
        → Serves peer (route c json codecs runtime backend env e app s).2

  module _ (env : Env) where
    decoding-Moves :
        {T : Type 0} (decoded : Result T String)
        (handler : T → App Value Desk → Session → Handled Value Desk) (app : App Value Desk)
        (s : Session)
        → ((request : T) → Moves c json codecs runtime backend s (handler request app s).2)
        → Moves c json codecs runtime backend s
            (decoding c json codecs runtime backend env decoded handler app s).2
    decoding-Moves (ok request) handler app s k = k request
    decoding-Moves (err e) handler app s k = inl refl

    handle_op-Moves :
        (op : KnownOp) (d : Value) (app : App Value Desk) (s : Session)
        → Moves c json codecs runtime backend s
            (handle_op c json codecs runtime backend env op d app s).2
    unfolding handle_op on_pair_cancel on_pair_revoke on_profile_set on_profile_activate
        on_profile_delete on_action_run on_settings_set step
    handle_op-Moves KnownOp.session_hello d app s =
        decoding-Moves (json.hello d) (on_hello c codecs env) app s
          (λ r. hello-Moves c json codecs runtime backend env r app s)
    handle_op-Moves KnownOp.session_auth d app s =
        decoding-Moves (json.auth d) (on_auth c codecs env) app s
          (λ r. auth-Moves c json codecs runtime backend env r app s)
    handle_op-Moves KnownOp.pair_request d app s =
        decoding-Moves (json.pair_request d) (on_pair_request c codecs env) app s
          (λ r. inl (pair_request_session c json codecs runtime backend env r app s))
    handle_op-Moves KnownOp.pair_begin d app s =
        decoding-Moves (json.pair_begin d) (on_pair_begin c codecs env) app s
          (λ r. inl (pair_begin_session c json codecs runtime backend env r app s))
    handle_op-Moves KnownOp.pair_revoke d app s =
        decoding-Moves (json.pair_revoke d) (on_pair_revoke c codecs env) app s (λ r. inl (
          revoked_session c json codecs runtime backend env r.device_id app
            (Registry.revoke codecs.devices r.device_id env.attempt app.engine.registry
              app.machine.files)
            s))
    handle_op-Moves KnownOp.pair_cancel d app s = inl refl
    handle_op-Moves KnownOp.system_ping d app s =
        decoding-Moves (json.ping d)
          (λ t_client app s. (ok (ping_reply t_client env.unix_millis), app, s)) app s
          (λ r. inl refl)
    handle_op-Moves KnownOp.profile_get d app s =
        decoding-Moves (json.profile_get d) (on_profile_get codecs env) app s
          (λ r. inl (profile_get_session c json codecs runtime backend env r app s))
    handle_op-Moves KnownOp.profile_set d app s =
        decoding-Moves (json.profile_set d) (on_profile_set codecs env) app s (λ r. inl (
          stored_session c json codecs runtime backend env r.profile app
            (Store.set codecs.profiles r.profile (unwrap_or (role s) Role.deck) env.attempt
              app.store app.machine.files)
            s))
    handle_op-Moves KnownOp.profile_activate d app s =
        decoding-Moves (json.profile_activate d) (on_profile_activate codecs env) app s (λ r. inl (
          switched_session c json codecs runtime backend env app
            (Store.activate codecs.profiles r.profile_id env.attempt app.store app.machine.files)
            s))
    handle_op-Moves KnownOp.profile_delete d app s =
        decoding-Moves (json.profile_delete d) (on_profile_delete codecs env) app s (λ r. inl (
          switched_session c json codecs runtime backend env app
            (Store.delete codecs.profiles r.profile_id env.attempt app.store app.machine.files) s))
    handle_op-Moves KnownOp.action_run d app s =
        decoding-Moves (json.action_run d) (on_action_run codecs env) app s (λ r. inl (
          ran_session c json codecs runtime backend env app
            (run_action env.system r.action_id app.engine app.machine) s))
    handle_op-Moves KnownOp.settings_set d app s =
        decoding-Moves (json.settings_set d) (on_settings_set codecs env) app s (λ r. inl (
          applied_session c json codecs runtime backend env (requires_restart r) app
            (apply_settings codecs.settings env.answers r app.engine app.machine) s))
    handle_op-Moves KnownOp.action_set d app s =
        inl
          (action_set_session c json codecs runtime backend env (payload (json.action_set d)) app s)
    handle_op-Moves KnownOp.action_delete d app s = inl (
        action_delete_session c json codecs runtime backend env (payload (json.action_delete d)) app
          s)
    handle_op-Moves KnownOp.profile_subscribe d app s = inr (Event.profile_subscribe, refl)
    handle_op-Moves KnownOp.telemetry_subscribe d app s = inr (Event.telemetry_subscribe, refl)
    handle_op-Moves KnownOp.action_list d app s = inl refl
    handle_op-Moves KnownOp.profile_list d app s = inl refl
    handle_op-Moves KnownOp.pair_list_devices d app s = inl refl
    handle_op-Moves KnownOp.settings_get d app s = inl refl
    handle_op-Moves _ d app s = inl refl

    handle_input-Moves :
        (op : KnownOp) (d : Value) (app : App Value Desk) (s : Session)
        → Moves c json codecs runtime backend s
            (handle_input c json codecs runtime backend env op d app s).2
    unfolding handle_input
    handle_input-Moves KnownOp.input_key_combo d app s =
        decoding-Moves (json.key_combo d)
          (λ request app s.
            injected c json codecs runtime backend env app
              (InputDispatch.key_combo runtime backend request app.input) s)
          app s
          (λ r. inl (
            injected_session c json codecs runtime backend env app
              (InputDispatch.key_combo runtime backend r app.input) s))
    handle_input-Moves KnownOp.input_key_sequence d app s =
        decoding-Moves (json.key_sequence d)
          (λ request app s.
            injected c json codecs runtime backend env app
              (InputDispatch.key_sequence runtime backend request app.input) s)
          app s
          (λ r. inl (
            injected_session c json codecs runtime backend env app
              (InputDispatch.key_sequence runtime backend r app.input) s))
    handle_input-Moves KnownOp.input_text d app s =
        decoding-Moves (json.text d)
          (λ request app s.
            injected c json codecs runtime backend env app
              (InputDispatch.text runtime backend request app.input) s)
          app s
          (λ r. inl (
            injected_session c json codecs runtime backend env app
              (InputDispatch.text runtime backend r app.input) s))
    handle_input-Moves KnownOp.input_media d app s =
        decoding-Moves (json.media d)
          (λ request app s.
            injected c json codecs runtime backend env app
              (InputDispatch.media runtime backend request app.input) s)
          app s
          (λ r. inl (
            injected_session c json codecs runtime backend env app
              (InputDispatch.media runtime backend r app.input) s))
    handle_input-Moves KnownOp.input_mouse d app s =
        decoding-Moves (json.mouse d)
          (λ request app s.
            injected c json codecs runtime backend env app
              (InputDispatch.mouse runtime backend request app.input) s)
          app s
          (λ r. inl (
            injected_session c json codecs runtime backend env app
              (InputDispatch.mouse runtime backend r app.input) s))
    handle_input-Moves _ d app s = inl refl

    handle_envelope-Moves :
        (e : Envelope Value) (app : App Value Desk) (s : Session)
        → Moves c json codecs runtime backend s
            (handle_envelope c json codecs runtime backend env e app s).2
    unfolding handle_envelope
    handle_envelope-Moves e app s = elim (Bool-cases (is_supported_version e)) [
      | inr x ↦ rw (x, handle_envelope) (inl refl)
      | inl x ↦ elim (Result-cases (authorize e.op s)) [
        | inr (y, denied) ↦ rw (x, denied, handle_envelope) (inl refl)
        | inl (op, granted) ↦ rw (x, granted, handle_envelope) (handle_op-Moves op e.d app s)
      ]
    ]

    route-Moves :
        (e : Envelope Value) (app : App Value Desk) (s : Session)
        → Moves c json codecs runtime backend s (route c json codecs runtime backend env e app s).2
    unfolding route
    route-Moves e app s = elim (Bool-cases (is_supported_version e)) [
      | inr x ↦ rw (x, route) (inl refl)
      | inl x ↦ elim (Result-cases (authorize e.op s)) [
        | inr (y, denied) ↦ rw (x, denied, route) (inl refl)
        | inl (op, granted) ↦ elim (Bool-cases (is_input op)) [
          | inl i ↦ rw (x, granted, i, route) (handle_input-Moves op e.d app s)
          | inr i ↦ rw (x, granted, i, route) (handle_envelope-Moves e app s)
        ]
      ]
    ]

  moved :
      (peer : SocketAddr) (s s' : Session)
      → Moves c json codecs runtime backend s s'
      → ((events : List Event) × (s ≡ after c peer events))
      → (events : List Event) × (s' ≡ after c peer events)
  unfolding after
  moved peer s s' (inl same) (events, e) = (events, cc)
  moved peer s s' (inr (event, stepped)) (events, e) = (event ∷ events, rw e at stepped)

  Serves-after :
      {peer : SocketAddr} {s : Session}
      → Serves peer s
      → (events : List Event) × (s ≡ after c peer events)
  unfolding after
  Serves-after opened_socket = ([], refl)
  Serves-after {peer = peer} (served {s = before} env e app live) =
      moved peer before (route c json codecs runtime backend env e app before).2
        (route-Moves env e app before) (Serves-after live)

  pub Serves-Justified :
      {peer : SocketAddr} {s : Session}
      → Serves peer s
      → (events : List Event) × (s ≡ after c peer events) × Justified c peer s.state events
  Serves-Justified {peer = peer} live =
      let (events, e) = Serves-after live in
      (
        events,
        e,
        subst (λ x. Justified c peer x.state events) (sym e) (after-Justified c peer events),
      )
