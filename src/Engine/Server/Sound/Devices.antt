-- ===== src/Engine/Server/Sound/Devices.antt =====
-- The handlers of the handshake and of pairing keep the shared state sound.
use muxdeck.Prelude.{
  ℕ, String, ◌≡◌, Bool, true, false, Option, none, some, arith, ok, err, Result-cases, inl, inr,
}
use muxdeck.Protocol.Session.{HelloRequest, AuthRequest, HelloResponse, Ready}
use muxdeck.Protocol.Pairing
use muxdeck.Protocol.Pairing.{PairRequest, PairBeginRequest, PairRevokeRequest}
use muxdeck.Engine.Errors.{Outcome}
use muxdeck.Engine.Crypto.{Crypto, Base64Law}
use muxdeck.Engine.Disk.{Fs}
use muxdeck.Engine.Registry
use muxdeck.Engine.Registry.{Registry}
use muxdeck.Engine.Registry.Keys
use muxdeck.Engine.Registry.Keys.{insert-IsValid, revoke-IsValid, touch-IsValid}
use muxdeck.Engine.Pairing.{PairingWindow, verify_pair_request}
use muxdeck.Engine.Session.{Session, device_id, handle_hello, handle_auth}
use muxdeck.Engine.Host.{
  Engine, mark_connected, mark_disconnected, close_pairing, open_pairing, pairing_window,
}
use muxdeck.Engine.Server.State.{Codecs, Env, App, publish_devices, context}
use muxdeck.Engine.Server.Devices.{
  on_hello, on_auth, on_pair_request, on_pair_begin, on_pair_cancel, on_pair_revoke, arrive,
  registered, opened, revoked, answer_hello, answer_auth,
}
use muxdeck.Engine.Server.Sound.{IsSound}

mark_connected_frame :
    (id : String) (g : Engine)
    → ((mark_connected id g).registry ≡ g.registry) × ((mark_connected id g).actions ≡ g.actions)
unfolding mark_connected
mark_connected_frame id g = ground arith

open_pairing_frame :
    (ttl : Option ℕ) (otp : Outcome String) (instant unix_now : ℕ) (g : Engine)
    → let g' = (open_pairing ttl otp instant unix_now g).1 in
      (g'.registry ≡ g.registry) × (g'.actions ≡ g.actions)
unfolding open_pairing
open_pairing_frame ttl otp instant unix_now g = ground arith

module _ {Value Desk : Type 0} (c : Crypto) (law : Base64Law c) (codecs : Codecs Value)
    (env : Env) where
  publish_devices-IsSound : (app : App Value Desk) → IsSound c app → IsSound c (publish_devices app)
  unfolding publish_devices
  publish_devices-IsSound app v = record {
    registry = v.registry;
    layouts = v.layouts;
    actions = v.actions;
  }

  pub on_hello-IsSound :
      (request : HelloRequest) (app : App Value Desk) (s : Session)
      → IsSound c app
      → IsSound c (on_hello c codecs env request app s).1
  unfolding on_hello
  on_hello-IsSound request app s v =
      answered (handle_hello c env.random request (context env app) s)
    where
      answered :
          (x : Outcome HelloResponse × Session) → IsSound c (answer_hello c codecs env app x).1
      answered (ok r, s') = v
      answered (err e, s') = v

  arrive-IsSound :
      (id : Option String) (app : App Value Desk)
      → IsSound c app
      → IsSound c (arrive c codecs env id app)
  unfolding arrive
  arrive-IsSound none app v = v
  arrive-IsSound (some id) app v =
      let (r, a) = mark_connected_frame id app.engine in
      record {
        registry =
            touch-IsValid c codecs.devices id env.unix_now env.attempt
              (mark_connected id app.engine).registry app.machine.files (rw r v.registry);
        layouts = v.layouts;
        actions = rw a v.actions;
      }

  pub on_auth-IsSound :
      (request : AuthRequest) (app : App Value Desk) (s : Session)
      → IsSound c app
      → IsSound c (on_auth c codecs env request app s).1
  unfolding on_auth answer_auth
  on_auth-IsSound request app s v = answered (handle_auth c request (context env app) s)
    where
      answered : (x : Outcome Ready × Session) → IsSound c (answer_auth c codecs env app x).1
      answered (ok r, s') = publish_devices-IsSound _ (arrive-IsSound (device_id s') app v)
      answered (err e, s') = v

  registered-IsSound :
      (app : App Value Desk) (x : Outcome String × Registry × Fs) (s : Session)
      → IsSound c app
      → Keys.IsValid c x.1
      → IsSound c (registered c codecs env app x s).1
  unfolding registered close_pairing
  registered-IsSound app (err e, r, fs) s v k = record {
    registry = k;
    layouts = v.layouts;
    actions = v.actions;
  }
  registered-IsSound app (ok id, r, fs) s v k =
      publish_devices-IsSound _ (record { registry = k; layouts = v.layouts; actions = v.actions })

  pub on_pair_request-IsSound :
      (request : PairRequest) (app : App Value Desk) (s : Session)
      → IsSound c app
      → IsSound c (on_pair_request c codecs env request app s).1
  unfolding on_pair_request
  on_pair_request-IsSound request app s v =
      elim (Result-cases
        (verify_pair_request c env.instant (pairing_window env.instant app.engine) request)) [
          | inr (x, e) ↦ rw (e, on_pair_request) v
          | inl (key, e) ↦
              rw (e, on_pair_request)
                (registered-IsSound app
                  (Registry.insert c codecs.devices key request.device_name request.platform
                    env.unix_now env.attempt app.engine.registry app.machine.files)
                  s v
                  (insert-IsValid c codecs.devices law key request.device_name request.platform
                    env.unix_now env.attempt app.engine.registry app.machine.files v.registry))
        ]

  opened-IsSound :
      (app : App Value Desk) (x : Outcome PairingWindow × Engine) (s : Session)
      → IsSound c app
      → x.1.registry ≡ app.engine.registry
      → x.1.actions ≡ app.engine.actions
      → IsSound c (opened c codecs env app x s).1
  unfolding opened
  opened-IsSound app (err e, g) s v r a = record {
    registry = rw r v.registry;
    layouts = v.layouts;
    actions = rw a v.actions;
  }
  opened-IsSound app (ok w, g) s v r a = record {
    registry = rw r v.registry;
    layouts = v.layouts;
    actions = rw a v.actions;
  }

  pub on_pair_begin-IsSound :
      (request : PairBeginRequest) (app : App Value Desk) (s : Session)
      → IsSound c app
      → IsSound c (on_pair_begin c codecs env request app s).1
  unfolding on_pair_begin
  on_pair_begin-IsSound request app s v = elim (Result-cases (Pairing.validate request)) [
    | inr (x, e) ↦ rw (e, on_pair_begin) v
    | inl (_, e) ↦
        let (r, a) =
          open_pairing_frame request.ttl_seconds env.otp env.instant env.unix_now app.engine in
        rw (e, on_pair_begin)
          (opened-IsSound app
            (open_pairing request.ttl_seconds env.otp env.instant env.unix_now app.engine) s v r a)
  ]

  pub on_pair_cancel-IsSound :
      (app : App Value Desk) (s : Session)
      → IsSound c app
      → IsSound c (on_pair_cancel c codecs env app s).1
  unfolding on_pair_cancel close_pairing
  on_pair_cancel-IsSound app s v = record {
    registry = v.registry;
    layouts = v.layouts;
    actions = v.actions;
  }

  revoked-IsSound :
      (id : String) (app : App Value Desk) (x : Outcome Bool × Registry × Fs) (s : Session)
      → IsSound c app
      → Keys.IsValid c x.1
      → IsSound c (revoked c codecs env id app x s).1
  unfolding revoked mark_disconnected
  revoked-IsSound id app (err e, r, fs) s v k = record {
    registry = k;
    layouts = v.layouts;
    actions = v.actions;
  }
  revoked-IsSound id app (ok false, r, fs) s v k = record {
    registry = k;
    layouts = v.layouts;
    actions = v.actions;
  }
  revoked-IsSound id app (ok true, r, fs) s v k =
      publish_devices-IsSound _ (record { registry = k; layouts = v.layouts; actions = v.actions })

  pub on_pair_revoke-IsSound :
      (request : PairRevokeRequest) (app : App Value Desk) (s : Session)
      → IsSound c app
      → IsSound c (on_pair_revoke c codecs env request app s).1
  unfolding on_pair_revoke
  on_pair_revoke-IsSound request app s v =
      revoked-IsSound request.device_id app
        (Registry.revoke codecs.devices request.device_id env.attempt app.engine.registry
          app.machine.files)
        s v
        (revoke-IsValid c codecs.devices request.device_id env.attempt app.engine.registry
          app.machine.files v.registry)
