-- ===== src/Engine/Server/Keeps.antt =====
-- What each handler that a deck can reach leaves alone.
use muxdeck.Prelude.{
  String, ◌≡◌, refl, Option, none, some, arith, Result, ok, err, Result-cases, Option-cases, inl,
  inr, ◌⊎◌,
}
use muxdeck.Protocol.Profiles.{ProfileGetRequest, ProfileActivateRequest}
use muxdeck.Protocol.Actions.{ActionRunRequest}
use muxdeck.Protocol.Session.{HelloRequest, AuthRequest, HelloResponse, Ready}
use muxdeck.Engine.Errors.{Outcome}
use muxdeck.Engine.Crypto.{Crypto}
use muxdeck.Engine.Disk.{Fs, Attempt}
use muxdeck.Engine.Registry.{Registry}
use muxdeck.Engine.Actions.{spawn}
use muxdeck.Engine.Session.{Session, device_id, handle_hello, handle_auth}
use muxdeck.Engine.Pairing.{verify_pair_request}
use muxdeck.Engine.Backend.{InputBackend}
use muxdeck.Engine.Store
use muxdeck.Engine.Store.{Store}
use muxdeck.Engine.InputDispatch.{Runtime, World}
use muxdeck.Engine.Host.{
  Machine, mark_connected, close_pairing, pairing_window, run_action, run_found,
}
use muxdeck.Protocol.Pairing.{PairRequest}
use muxdeck.Engine.Server.State.{Json, Codecs, Env, App, Handled, publish_devices, context}
use muxdeck.Engine.Server.Devices.{
  on_hello, on_auth, on_pair_request, arrive, registered, answer_hello, answer_auth,
}
use muxdeck.Engine.Server.Content.{
  on_profile_get, on_profile_activate, on_action_run, switched, publish_active, ran,
}
use muxdeck.Engine.Server.{injected, decoding}

-- What only the panel may change, and that a pairing window is not opened.
pub record Keeps {Value Desk : Type 0} (app app' : App Value Desk) : Type 0 where
  pub settings : app'.engine.settings ≡ app.engine.settings
  pub actions : app'.engine.actions ≡ app.engine.actions
  pub profiles : app'.store.profiles ≡ app.store.profiles
  pub window : (app'.engine.pairing ≡ app.engine.pairing) ⊎ (app'.engine.pairing ≡ none)
  pub startup : app'.machine.starts_at_login ≡ app.machine.starts_at_login

activate_profiles :
    {Value : Type 0} (codecs : Codecs Value) (id : String) (attempt : Attempt) (s : Store Value)
    (fs : Fs)
    → (Store.activate codecs.profiles id attempt s fs).1.profiles ≡ s.profiles
unfolding Store.activate Store.with_active
activate_profiles codecs id attempt s fs = ground arith

module _ {Value Desk : Type 0} where
  pub Keeps-refl : (app : App Value Desk) → Keeps app app
  Keeps-refl app = record {
    settings = refl;
    actions = refl;
    profiles = refl;
    window = inl refl;
    startup = refl;
  }

  publish_devices-Keeps :
      (app app' : App Value Desk) → Keeps app app' → Keeps app (publish_devices app')
  unfolding publish_devices
  publish_devices-Keeps app app' k = record {
    settings = k.settings;
    actions = k.actions;
    profiles = k.profiles;
    window = k.window;
    startup = k.startup;
  }

  module _ (c : Crypto) (codecs : Codecs Value) (env : Env) where
    arrive-Keeps :
        (id : Option String) (app : App Value Desk) → Keeps app (arrive c codecs env id app)
    unfolding arrive mark_connected
    arrive-Keeps none app = Keeps-refl app
    arrive-Keeps (some id) app = record {
      settings = ground arith;
      actions = ground arith;
      profiles = refl;
      window = inl (ground arith);
      startup = refl;
    }

    answer_hello-Keeps :
        (app : App Value Desk) (x : Outcome HelloResponse × Session)
        → Keeps app (answer_hello c codecs env app x).1
    answer_hello-Keeps app (err e, s) = Keeps-refl app
    answer_hello-Keeps app (ok r, s) = Keeps-refl app

    answer_auth-Keeps :
        (app : App Value Desk) (x : Outcome Ready × Session)
        → Keeps app (answer_auth c codecs env app x).1
    unfolding answer_auth
    answer_auth-Keeps app (err e, s) = Keeps-refl app
    answer_auth-Keeps app (ok r, s) = publish_devices-Keeps app _ (arrive-Keeps (device_id s) app)

    registered-Keeps :
        (app : App Value Desk) (x : Outcome String × Registry × Fs) (s : Session)
        → Keeps app (registered c codecs env app x s).1
    unfolding registered close_pairing
    registered-Keeps app (err e, r, fs) s = record {
      settings = refl;
      actions = refl;
      profiles = refl;
      window = inl refl;
      startup = refl;
    }
    registered-Keeps app (ok id, r, fs) s = publish_devices-Keeps app _ (record {
      settings = refl;
      actions = refl;
      profiles = refl;
      window = inr refl;
      startup = refl;
    })

    pub on_hello-Keeps :
        (request : HelloRequest) (app : App Value Desk) (s : Session)
        → Keeps app (on_hello c codecs env request app s).1
    unfolding on_hello
    on_hello-Keeps request app s =
        answer_hello-Keeps app (handle_hello c env.random request (context env app) s)

    pub on_auth-Keeps :
        (request : AuthRequest) (app : App Value Desk) (s : Session)
        → Keeps app (on_auth c codecs env request app s).1
    unfolding on_auth
    on_auth-Keeps request app s = answer_auth-Keeps app (handle_auth c request (context env app) s)

    pub on_pair_request-Keeps :
        (request : PairRequest) (app : App Value Desk) (s : Session)
        → Keeps app (on_pair_request c codecs env request app s).1
    unfolding on_pair_request
    on_pair_request-Keeps request app s =
        elim (Result-cases
          (verify_pair_request c env.instant (pairing_window env.instant app.engine) request)) [
            | inr (x, e) ↦ rw (e, on_pair_request) (Keeps-refl app)
            | inl (key, e) ↦ rw (e, on_pair_request) (registered-Keeps app _ s)
          ]

  module _ (codecs : Codecs Value) (env : Env) where
    publish_active-Keeps :
        (app app' : App Value Desk) → Keeps app app' → Keeps app (publish_active codecs env app')
    unfolding publish_active
    publish_active-Keeps app app' k = elim (Option-cases (Store.active app'.store)) [
      | inl e ↦ rw (e, publish_active) k
      | inr (p, e) ↦
          rw (e, publish_active)
            (record {
              settings = k.settings;
              actions = k.actions;
              profiles = k.profiles;
              window = k.window;
              startup = k.startup;
            })
    ]

    switched-Keeps :
        (app : App Value Desk) (x : Outcome (Unit {0}) × Store Value × Fs) (s : Session)
        → x.1.profiles ≡ app.store.profiles
        → Keeps app (switched codecs env app x s).1
    unfolding switched
    switched-Keeps app (err e, store, fs) s h = record {
      settings = refl;
      actions = refl;
      profiles = h;
      window = inl refl;
      startup = refl;
    }
    switched-Keeps app (ok _, store, fs) s h = publish_active-Keeps app _ (record {
      settings = refl;
      actions = refl;
      profiles = h;
      window = inl refl;
      startup = refl;
    })

    ran-Keeps :
        (app : App Value Desk) (x : Outcome (Unit {0}) × Machine) (s : Session)
        → x.1.starts_at_login ≡ app.machine.starts_at_login
        → Keeps app (ran codecs env app x s).1
    unfolding ran
    ran-Keeps app (err e, m) s h = record {
      settings = refl;
      actions = refl;
      profiles = refl;
      window = inl refl;
      startup = h;
    }
    ran-Keeps app (ok _, m) s h = record {
      settings = refl;
      actions = refl;
      profiles = refl;
      window = inl refl;
      startup = h;
    }

    pub activate-Keeps :
        (request : ProfileActivateRequest) (app : App Value Desk) (s : Session)
        → Keeps app (on_profile_activate codecs env request app s).1
    unfolding on_profile_activate
    activate-Keeps r app s =
        switched-Keeps app
          (Store.activate codecs.profiles r.profile_id env.attempt app.store app.machine.files) s
          (activate_profiles codecs r.profile_id env.attempt app.store app.machine.files)

    pub profile_get-Keeps :
        (request : ProfileGetRequest) (app : App Value Desk) (s : Session)
        → Keeps app (on_profile_get codecs env request app s).1
    unfolding on_profile_get
    profile_get-Keeps request app s = elim (Option-cases (Store.get app.store request.profile_id)) [
      | inl e ↦ rw (e, on_profile_get) (Keeps-refl app)
      | inr (p, e) ↦ rw (e, on_profile_get) (Keeps-refl app)
    ]

    run_action_startup :
        (id : String) (app : App Value Desk)
        → (run_action env.system id app.engine app.machine).1.starts_at_login
          ≡ app.machine.starts_at_login
    unfolding run_action run_found spawn
    run_action_startup id app = ground arith

    pub action_run-Keeps :
        (request : ActionRunRequest) (app : App Value Desk) (s : Session)
        → Keeps app (on_action_run codecs env request app s).1
    unfolding on_action_run
    action_run-Keeps r app s =
        ran-Keeps app (run_action env.system r.action_id app.engine app.machine) s
          (run_action_startup r.action_id app)

module _ {Value Int Float Desk : Type 0} (c : Crypto) (json : Json Value Int Float)
    (codecs : Codecs Value) (runtime : Runtime Desk) (backend : InputBackend Int Float Desk)
    (env : Env) where
  pub decoding-Keeps :
      {T : Type 0} (decoded : Result T String)
      (handler : T → App Value Desk → Session → Handled Value Desk) (app : App Value Desk)
      (s : Session)
      → ((request : T) → Keeps app (handler request app s).1)
      → Keeps app (decoding c json codecs runtime backend env decoded handler app s).1
  decoding-Keeps (ok request) handler app s k = k request
  decoding-Keeps (err e) handler app s k = Keeps-refl app

  pub injected-Keeps :
      (app : App Value Desk) (x : Outcome (Unit {0}) × World Desk) (s : Session)
      → Keeps app (injected c json codecs runtime backend env app x s).1
  injected-Keeps app (err e, w) s = record {
    settings = refl;
    actions = refl;
    profiles = refl;
    window = inl refl;
    startup = refl;
  }
  injected-Keeps app (ok _, w) s = record {
    settings = refl;
    actions = refl;
    profiles = refl;
    window = inl refl;
    startup = refl;
  }

  pub injecting-Keeps :
      {T : Type 0} (decoded : Result T String)
      (f : T → World Desk → Outcome (Unit {0}) × World Desk) (app : App Value Desk) (s : Session)
      → Keeps app
          (decoding c json codecs runtime backend env decoded
            (λ request app s.
              injected c json codecs runtime backend env app (f request app.input) s)
            app
            s).1
  injecting-Keeps (ok request) f app s = injected-Keeps app (f request app.input) s
  injecting-Keeps (err e) f app s = Keeps-refl app
