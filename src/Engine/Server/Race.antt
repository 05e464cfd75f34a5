-- ===== src/Engine/Server/Race.antt =====
-- The `pair.request` arm of `handle_envelope` in engine/crates/muxdeck-engine/src/server.rs between its
-- locks: it reads the window, stores the device and closes the window under three locks, and what
-- another thread does comes in between.
use muxdeck.Prelude.{
  ℕ, String, Bool, true, false, ◌≡◌, refl, ap, ◌∙◌, Option, List, [], ◌∷◌, ok, err, ◌==◌, string_eq,
  if◌then◌else◌,
}
use muxdeck.Protocol.Pairing.{PairRequest}
use muxdeck.Engine.Errors.{Outcome}
use muxdeck.Engine.Crypto.{Crypto, Base64Law}
use muxdeck.Engine.Disk.{Fs}
use muxdeck.Engine.Registry
use muxdeck.Engine.Registry.{Registry, verifying_key, key_of_bytes}
use muxdeck.Engine.Registry.Effects.{verifying_key-insert}
use muxdeck.Engine.Pairing.{PairingWindow, verify_pair_request}
use muxdeck.Engine.Host.{close_pairing, pairing_window}
use muxdeck.Engine.Server.State.{
  Codecs, Env, App, pairing_state, publish, publish_devices, with_engine, with_registry,
}
use muxdeck.Engine.Server.Devices.{closed_state}
use muxdeck.Engine.Server.Once.{inserted}

-- How far a handler has come: it waits, it has read the window, it has stored a device, or it is done.
pub data Phase : Type 0 where
  waiting : Phase
  looked : Option PairingWindow → Phase
  stored : String → Phase
  done : Outcome String → Phase

-- The turns of two handlers that take each lock one after the other.
abbrev pub in_step : List Bool
in_step = true ∷ false ∷ true ∷ false ∷ true ∷ false ∷ []

module _ {Value Desk : Type 0} (c : Crypto) (codecs : Codecs Value) where
  abbrev storing : App Value Desk → Outcome String × Registry × Fs → Phase × App Value Desk
  storing app (err e, r, fs) = (done (err e), with_registry r fs app)
  storing app (ok id, r, fs) = (stored id, with_registry r fs app)

  -- What a handler does until it lets go of its next lock.
  unfoldable pub advance : Env → PairRequest → Phase → App Value Desk → Phase × App Value Desk
  unfolding pairing_window verify_pair_request Registry.insert close_pairing publish_devices
  advance env request waiting app = (looked (pairing_window env.instant app.engine), app)
  advance env request (looked window) app =
      elim (verify_pair_request c env.instant window request) [
        | err e ↦ (done (err e), app)
        | ok pubkey ↦ storing app (inserted c codecs env request pubkey app)
      ]
  advance env request (stored id) app = (
    done (ok id),
    publish_devices
        (publish (pairing_state closed_state) (with_engine (close_pairing app.engine) app)),
  )
  advance env request (done r) app = (done r, app)

  -- Two handlers on two threads: a turn of the first one, or of the second.
  unfoldable pub turns :
      Env
      → PairRequest
      → Env
      → PairRequest
      → List Bool
      → Phase × Phase × App Value Desk
      → Phase × Phase × App Value Desk
  unfolding advance
  turns env request env' request' [] x = x
  turns env request env' request' (true ∷ rest) (p, q, app) =
      let (p', app') = advance env request p app in
      turns env request env' request' rest (p', q, app')
  turns env request env' request' (false ∷ rest) (p, q, app) =
      let (q', app') = advance env' request' q app in
      turns env request env' request' rest (p, q', app')

  advance-looked :
      (env : Env) (request : PairRequest) (window : Option PairingWindow) (app : App Value Desk)
      (key : List ℕ) (id : String)
      → verify_pair_request c env.instant window request ≡ ok key
      → (inserted c codecs env request key app).0 ≡ ok id
      → let (x, r, fs) = inserted c codecs env request key app in
        advance env request (looked window) app ≡ (stored id, with_registry r fs app)
  unfolding advance
  advance-looked env request window app key id proven kept =
      rw (proven, advance) (rw (kept, storing) refl)

  -- Two requests that are handled in step on one open window pair two devices: when each of them
  -- shows what the window asks for and its device is stored, both are answered with an id, and both
  -- ids authenticate with their keys, the others as before, if base64 decodes what it encodes.
  pub in_step_pairs :
      Base64Law c
      → (env : Env) (request : PairRequest) (env' : Env) (request' : PairRequest)
        (app : App Value Desk) (key key' : List ℕ) (id id' : String)
      → verify_pair_request c env.instant (pairing_window env.instant app.engine) request ≡ ok key
      → verify_pair_request c env'.instant (pairing_window env'.instant app.engine) request'
        ≡ ok key'
      → let (x, r, fs) = inserted c codecs env request key app in
        x ≡ ok id
        → (inserted c codecs env' request' key' (with_registry r fs app)).0 ≡ ok id'
        → let (p, q, app') = turns env request env' request' in_step (waiting, waiting, app) in
          (p ≡ done (ok id))
          × (q ≡ done (ok id'))
          × ((d : String)
              → verifying_key c app'.engine.registry d ≡ (
                  if id' == d
                  then key_of_bytes c key'
                  else if id == d
                  then key_of_bytes c key
                  else verifying_key c app.engine.registry d))
  unfolding turns advance
  in_step_pairs law env request env' request' app key key' id id' proven proven' kept kept' =
      let (x, r, fs) = inserted c codecs env request key app in
      let app1 = with_registry r fs app in
      let first =
        advance-looked env request (pairing_window env.instant app.engine) app key id proven kept in
      let second =
        advance-looked env' request' (pairing_window env'.instant app.engine) app1 key' id' proven'
          kept' in
      let (_, r', fs') = inserted c codecs env' request' key' app1 in
      let window' = pairing_window env'.instant app.engine in
      let go = turns env request env' request' in
      let same : go in_step (waiting, waiting, app)
          ≡ go (true ∷ false ∷ []) (stored id, stored id', with_registry r' fs' app1) =
        ap
          (λ (y : Phase × App Value Desk).
            go (false ∷ true ∷ false ∷ []) (y.0, looked window', y.1))
          first
        ∙ ap (λ (y : Phase × App Value Desk). go (true ∷ false ∷ []) (stored id, y.0, y.1))
            second in
      (
        ap (λ (x : Phase × Phase × App Value Desk). x.0) same,
        ap (λ (x : Phase × Phase × App Value Desk). x.1) same,
        λ d.
            ap (λ (x : Phase × Phase × App Value Desk). verifying_key c x.2.engine.registry d) same
            ∙ (verifying_key-insert c codecs.devices law key' request'.device_name request'.platform
                env'.unix_now env'.attempt r fs id' d kept').1
            ∙ ap (λ v. if id' == d then key_of_bytes c key' else v)
                (verifying_key-insert c codecs.devices law key request.device_name request.platform
                  env.unix_now env.attempt app.engine.registry app.machine.files id d kept).1,
      )
