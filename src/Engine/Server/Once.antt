-- ===== src/Engine/Server/Once.antt =====
-- What a `pair.request` that succeeds has shown and leaves: its arm in
-- engine/crates/muxdeck-engine/src/server.rs.
use muxdeck.Prelude.{
  ℕ, String, ◌≡◌, refl, ap, ◌∙◌, Option, none, List, ok, err, Result-cases, inl, inr,
}
use muxdeck.Protocol.Errors.{pairing_closed}
use muxdeck.Protocol.Pairing.{PairRequest}
use muxdeck.Engine.Errors.{Outcome, wire}
use muxdeck.Engine.Crypto.{Crypto}
use muxdeck.Engine.Disk.{Fs}
use muxdeck.Engine.Registry
use muxdeck.Engine.Registry.{Registry}
use muxdeck.Engine.Pairing.{PairingWindow, filter_open, verify_pair_request}
use muxdeck.Engine.Pairing.Proofs.{IsProven, filter_open-some, verify_pair_request_iff}
use muxdeck.Engine.Session.{Session}
use muxdeck.Engine.Host.{close_pairing, pairing_window}
use muxdeck.Engine.Server.State.{Reply, Codecs, Env, App, publish_devices}
use muxdeck.Engine.Server.Devices.{on_pair_request, registered}

IsProven-pairing :
    (c : Crypto) (instant : ℕ) (pairing : Option PairingWindow) (request : PairRequest)
    (pubkey : List ℕ)
    → IsProven c instant (filter_open instant pairing) request pubkey
    → IsProven c instant pairing request pubkey
IsProven-pairing c instant pairing request pubkey v = record {
  w = v.w;
  key = v.key;
  proof = v.proof;
  opened = (filter_open-some instant pairing v.w v.opened).0;
  within = v.within;
  code_matches = v.code_matches;
  key_decodes = v.key_decodes;
  key_length = v.key_length;
  proof_decodes = v.proof_decodes;
  proof_length = v.proof_length;
  key_valid = v.key_valid;
  signed = v.signed;
}

closed :
    (c : Crypto) (instant : ℕ) (pairing : Option PairingWindow) (request : PairRequest)
    → pairing ≡ none
    → verify_pair_request c instant (filter_open instant pairing) request
      ≡ err (wire pairing_closed "the host is not accepting new devices right now")
unfolding verify_pair_request filter_open
closed c instant pairing request shut = rw shut

module _ {Value Desk : Type 0} (c : Crypto) (codecs : Codecs Value) where
  -- The registry after the key of a request is inserted.
  abbrev pub inserted : Env → PairRequest → List ℕ → App Value Desk → Outcome String × Registry × Fs
  inserted env request pubkey app =
      Registry.insert c codecs.devices pubkey request.device_name request.platform env.unix_now
        env.attempt app.engine.registry app.machine.files

  registered_ok :
      (env : Env) (app : App Value Desk) (x : Outcome String × Registry × Fs) (s : Session)
      (reply : Reply Value)
      → (registered c codecs env app x s).0 ≡ ok reply
      → let app' = (registered c codecs env app x s).1 in
        (app'.engine.pairing ≡ none) × (app'.engine.registry ≡ x.1) × (app'.machine.files ≡ x.2)
  unfolding registered close_pairing publish_devices
  registered_ok env app (err e, r, fs) s reply h = absurd (cc)
  registered_ok env app (ok id, r, fs) s reply h = (refl, refl, refl)

  -- No request is accepted or changes anything while no window is open.
  pub closed_refuses :
      (env : Env) (request : PairRequest) (app : App Value Desk) (s : Session)
      → app.engine.pairing ≡ none
      → ((on_pair_request c codecs env request app s).0
          ≡ err (wire pairing_closed "the host is not accepting new devices right now"))
        × ((on_pair_request c codecs env request app s).1 ≡ app)
  unfolding on_pair_request pairing_window
  closed_refuses env request app s shut =
      let e = closed c env.instant app.engine.pairing request shut in
      rw (e, on_pair_request) (refl, refl)

  -- A request to pair that succeeds has shown all of `IsProven` for the open window, leaves the
  -- registry and the files as `insert` of its key makes them, and closes the window.
  pub on_pair_request_accepted :
      (env : Env) (request : PairRequest) (app : App Value Desk) (s : Session) (reply : Reply Value)
      → (on_pair_request c codecs env request app s).0 ≡ ok reply
      → let app' = (on_pair_request c codecs env request app s).1 in
        ((pubkey : List ℕ) × IsProven c env.instant app.engine.pairing request pubkey
          × (app'.engine.registry ≡ (inserted env request pubkey app).1)
          × (app'.machine.files ≡ (inserted env request pubkey app).2))
        × (app'.engine.pairing ≡ none)
  unfolding on_pair_request pairing_window
  on_pair_request_accepted env request app s reply h =
      elim (Result-cases
        (verify_pair_request c env.instant (pairing_window env.instant app.engine) request)) [
          | inr (x, e) ↦ absurd (let g = rw (e, on_pair_request) at h in cc)
          | inl (key, e) ↦
              let (shut, r, fs) =
                registered_ok env app (inserted env request key app) s reply
                  (rw (e, on_pair_request) at h) in
              let same : (on_pair_request c codecs env request app s).1
                  ≡ (registered c codecs env app (inserted env request key app) s).1 =
                rw (e, on_pair_request) in
              let proven =
                IsProven-pairing c env.instant app.engine.pairing request key
                  ((verify_pair_request_iff c _ _ request key).0 e) in
              (
                (
                  key,
                  proven,
                  ap (λ (a : App Value Desk). a.engine.registry) same ∙ r,
                  ap (λ (a : App Value Desk). a.machine.files) same ∙ fs,
                ),
                ap (λ (a : App Value Desk). a.engine.pairing) same ∙ shut,
              )
        ]
