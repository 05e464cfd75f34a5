-- ===== src/Engine/Server/Devices.antt =====
-- The handlers of the handshake and of pairing: the `session.*` and `pair.*` arms of
-- `handle_envelope` in engine/crates/muxdeck-engine/src/server.rs.
use muxdeck.Prelude.{String, Bool, true, false, Option, none, some, ok, err}
use muxdeck.Protocol.Errors.{unknown_device}
use muxdeck.Protocol.Session.{HelloRequest, AuthRequest, HelloResponse, Ready}
use muxdeck.Protocol.Pairing
use muxdeck.Protocol.Pairing.{PairRequest, PairBeginRequest, PairRevokeRequest, PairingState}
use muxdeck.Engine.Errors.{Outcome, wire_error, wire}
use muxdeck.Engine.Crypto.{Crypto}
use muxdeck.Engine.Disk.{Fs}
use muxdeck.Engine.Registry
use muxdeck.Engine.Registry.{Registry}
use muxdeck.Engine.Pairing.{PairingWindow, verify_pair_request, qr_payload}
use muxdeck.Engine.Session.{Session, handle_hello, handle_auth, device_id}
use muxdeck.Engine.Host.{
  Engine, mark_connected, mark_disconnected, open_pairing, close_pairing, pairing_window,
}
use muxdeck.Engine.Server.State.{
  hello_reply, ready_reply, pair_reply, begin_reply, empty_reply, pairing_state, Codecs, Env, App,
  Handled, publish, publish_devices, with_engine, with_registry, context,
}

abbrev pub closed_state : PairingState
closed_state = record { active = false; expires_at = 0 }

module _ {Value Desk : Type 0} (c : Crypto) (codecs : Codecs Value) (env : Env) where
  abbrev pub answer_hello : App Value Desk → Outcome HelloResponse × Session → Handled Value Desk
  answer_hello app (err e, s) = (err e, app, s)
  answer_hello app (ok response, s) = (ok (hello_reply response), app, s)

  unfoldable pub on_hello : HelloRequest → App Value Desk → Session → Handled Value Desk
  unfolding handle_hello context
  on_hello request app s = answer_hello app (handle_hello c env.random request (context env app) s)

  -- `mark_connected` and `touch`, whose result is dropped.
  unfoldable pub arrive : Option String → App Value Desk → App Value Desk
  unfolding mark_connected Registry.touch
  arrive none app = app
  arrive (some id) app =
      let app1 = with_engine (mark_connected id app.engine) app in
      let (_, r, fs) =
        Registry.touch codecs.devices id env.unix_now env.attempt app1.engine.registry
          app1.machine.files in
      with_registry r fs app1

  unfoldable pub answer_auth : App Value Desk → Outcome Ready × Session → Handled Value Desk
  unfolding arrive publish_devices device_id
  answer_auth app (err e, s) = (err e, app, s)
  answer_auth app (ok ready, s) =
      (ok (ready_reply ready), publish_devices (arrive (device_id s) app), s)

  unfoldable pub on_auth : AuthRequest → App Value Desk → Session → Handled Value Desk
  unfolding handle_auth context answer_auth
  on_auth request app s = answer_auth app (handle_auth c request (context env app) s)

  -- After `registry.insert`: the window is closed only when the device is stored.
  unfoldable pub registered :
      App Value Desk → Outcome String × Registry × Fs → Session → Handled Value Desk
  unfolding close_pairing publish_devices
  registered app (err e, r, fs) s = (err e, with_registry r fs app, s)
  registered app (ok id, r, fs) s =
      let app1 = with_registry r fs app in
      let app2 =
        publish (pairing_state closed_state) (with_engine (close_pairing app1.engine) app1) in
      (
        ok (
            pair_reply (record {
              device_id = id;
              host_id = app.engine.identity.host_id;
              host_name = app.engine.settings.host_name;
            })),
        publish_devices app2,
        s,
      )

  unfoldable pub on_pair_request : PairRequest → App Value Desk → Session → Handled Value Desk
  unfolding pairing_window verify_pair_request Registry.insert registered
  on_pair_request request app s =
      elim (verify_pair_request c env.instant (pairing_window env.instant app.engine) request) [
        | err e ↦ (err e, app, s)
        | ok pubkey ↦
            registered app
              (Registry.insert c codecs.devices pubkey request.device_name request.platform
                env.unix_now env.attempt app.engine.registry app.machine.files)
              s
      ]

  unfoldable pub opened :
      App Value Desk → Outcome PairingWindow × Engine → Session → Handled Value Desk
  unfolding qr_payload
  opened app (err e, g) s = (err e, with_engine g app, s)
  opened app (ok w, g) s = (
    ok (
        begin_reply (record {
          code = w.code;
          expires_at = w.expires_at;
          qr_payload = qr_payload w env.advertised_addr g.identity.host_id g.identity.fingerprint;
        })),
    publish (pairing_state (record { active = true; expires_at = w.expires_at }))
        (with_engine g app),
    s,
  )

  unfoldable pub on_pair_begin : PairBeginRequest → App Value Desk → Session → Handled Value Desk
  unfolding open_pairing opened
  on_pair_begin request app s = elim (Pairing.validate request) [
    | err e ↦ (err (wire_error e), app, s)
    | ok _ ↦
        opened app (open_pairing request.ttl_seconds env.otp env.instant env.unix_now app.engine) s
  ]

  unfoldable pub on_pair_cancel : App Value Desk → Session → Handled Value Desk
  unfolding close_pairing
  on_pair_cancel app s = (
    ok empty_reply,
    publish (pairing_state closed_state) (with_engine (close_pairing app.engine) app),
    s,
  )

  unfoldable pub revoked :
      String → App Value Desk → Outcome Bool × Registry × Fs → Session → Handled Value Desk
  unfolding mark_disconnected publish_devices
  revoked id app (err e, r, fs) s = (err e, with_registry r fs app, s)
  revoked id app (ok false, r, fs) s =
      (err (wire unknown_device "no such paired device"), with_registry r fs app, s)
  revoked id app (ok true, r, fs) s =
      let app1 = with_registry r fs app in
      (ok empty_reply, publish_devices (with_engine (mark_disconnected id app1.engine) app1), s)

  unfoldable pub on_pair_revoke : PairRevokeRequest → App Value Desk → Session → Handled Value Desk
  unfolding Registry.revoke revoked
  on_pair_revoke request app s =
      revoked request.device_id app
        (Registry.revoke codecs.devices request.device_id env.attempt app.engine.registry
          app.machine.files)
        s
