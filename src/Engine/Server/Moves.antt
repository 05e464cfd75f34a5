-- ===== src/Engine/Server/Moves.antt =====
-- What each handler does with the session of its socket.
use muxdeck.Prelude.{
  String, ◌≡◌, refl, Bool, true, false, ok, err, Result-cases, Option-cases, inl, inr, ◌⊎◌,
  if◌then◌else◌,
}
use muxdeck.Protocol.Session.{HelloRequest, AuthRequest, HelloResponse, Ready}
use muxdeck.Protocol.Pairing
use muxdeck.Protocol.Pairing.{PairRequest, PairBeginRequest, PairRevokeRequest}
use muxdeck.Protocol.Profiles.{Profile, ProfileGetRequest}
use muxdeck.Protocol.Actions.{ActionSetRequest, ActionDeleteRequest}
use muxdeck.Protocol.Settings.{Settings}
use muxdeck.Engine.Errors.{Outcome}
use muxdeck.Engine.Crypto.{Crypto}
use muxdeck.Engine.Disk.{Fs}
use muxdeck.Engine.Registry
use muxdeck.Engine.Registry.{Registry}
use muxdeck.Engine.Pairing.{PairingWindow, verify_pair_request}
use muxdeck.Engine.Actions
use muxdeck.Engine.Actions.{ActionStore}
use muxdeck.Engine.Session.{Session, handle_hello, handle_auth}
use muxdeck.Engine.Session.History.{Event, step}
use muxdeck.Engine.Backend.{InputBackend}
use muxdeck.Engine.Store
use muxdeck.Engine.Store.{Store}
use muxdeck.Engine.InputDispatch.{Runtime, World}
use muxdeck.Engine.Host.{Engine, Machine, open_pairing, pairing_window}
use muxdeck.Engine.Server.State.{Json, Codecs, Env, App, Handled, context}
use muxdeck.Engine.Server.Devices.{
  on_hello, on_auth, on_pair_request, on_pair_begin, registered, opened, revoked, answer_hello,
  answer_auth,
}
use muxdeck.Engine.Server.Content.{
  on_profile_get, on_action_set, on_action_delete, stored, switched, ran, changed, applied,
  shell_off,
}
use muxdeck.Engine.Server.{injected}

module _ {Value Int Float Desk : Type 0} (c : Crypto) (json : Json Value Int Float)
    (codecs : Codecs Value) (runtime : Runtime Desk) (backend : InputBackend Int Float Desk) where
  -- A handler leaves the session alone or takes one step of the handshake or of a subscription.
  abbrev pub Moves : Session → Session → Type 0
  Moves s s' = (s' ≡ s) ⊎ ((event : Event) × (s' ≡ step c event s))

  module _ (env : Env) where
    answer_hello_session :
        (app : App Value Desk) (x : Outcome HelloResponse × Session)
        → (answer_hello c codecs env app x).2 ≡ x.1
    answer_hello_session app (err e, s) = refl
    answer_hello_session app (ok r, s) = refl

    pub hello-Moves :
        (r : HelloRequest) (app : App Value Desk) (s : Session)
        → Moves s (on_hello c codecs env r app s).2
    unfolding on_hello step
    hello-Moves r app s = inr (
      Event.hello env.random r (context env app),
      answer_hello_session app (handle_hello c env.random r (context env app) s),
    )

    answer_auth_session :
        (app : App Value Desk) (x : Outcome Ready × Session)
        → (answer_auth c codecs env app x).2 ≡ x.1
    unfolding answer_auth
    answer_auth_session app (err e, s) = refl
    answer_auth_session app (ok r, s) = refl

    pub auth-Moves :
        (r : AuthRequest) (app : App Value Desk) (s : Session)
        → Moves s (on_auth c codecs env r app s).2
    unfolding on_auth step
    auth-Moves r app s = inr (
      Event.auth r (context env app),
      answer_auth_session app (handle_auth c r (context env app) s),
    )

    registered_session :
        (app : App Value Desk) (x : Outcome String × Registry × Fs) (s : Session)
        → (registered c codecs env app x s).2 ≡ s
    unfolding registered
    registered_session app (err e, r, fs) s = refl
    registered_session app (ok i, r, fs) s = refl

    opened_session :
        (app : App Value Desk) (x : Outcome PairingWindow × Engine) (s : Session)
        → (opened c codecs env app x s).2 ≡ s
    unfolding opened
    opened_session app (err e, g) s = refl
    opened_session app (ok w, g) s = refl

    pub revoked_session :
        (id : String) (app : App Value Desk) (x : Outcome Bool × Registry × Fs) (s : Session)
        → (revoked c codecs env id app x s).2 ≡ s
    unfolding revoked
    revoked_session id app (err e, r, fs) s = refl
    revoked_session id app (ok false, r, fs) s = refl
    revoked_session id app (ok true, r, fs) s = refl

    pub stored_session :
        (p : Profile Value) (app : App Value Desk) (x : Outcome (Unit {0}) × Store Value × Fs)
        (s : Session)
        → (stored codecs env p app x s).2 ≡ s
    unfolding stored
    stored_session p app (err e, st, fs) s = refl
    stored_session p app (ok _, st, fs) s = refl

    pub switched_session :
        (app : App Value Desk) (x : Outcome (Unit {0}) × Store Value × Fs) (s : Session)
        → (switched codecs env app x s).2 ≡ s
    unfolding switched
    switched_session app (err e, st, fs) s = refl
    switched_session app (ok _, st, fs) s = refl

    pub ran_session :
        (app : App Value Desk) (x : Outcome (Unit {0}) × Machine) (s : Session)
        → (ran codecs env app x s).2 ≡ s
    unfolding ran
    ran_session app (err e, m) s = refl
    ran_session app (ok _, m) s = refl

    changed_session :
        (app : App Value Desk) (x : Outcome (Unit {0}) × ActionStore × Fs) (s : Session)
        → (changed codecs env app x s).2 ≡ s
    unfolding changed
    changed_session app (err e, a, fs) s = refl
    changed_session app (ok _, a, fs) s = refl

    pub applied_session :
        (restart : Bool) (app : App Value Desk) (x : Outcome Settings × Engine × Machine)
        (s : Session)
        → (applied codecs env restart app x s).2 ≡ s
    unfolding applied
    applied_session restart app (err e, g, m) s = refl
    applied_session restart app (ok _, g, m) s = refl

    pub injected_session :
        (app : App Value Desk) (x : Outcome (Unit {0}) × World Desk) (s : Session)
        → (injected c json codecs runtime backend env app x s).2 ≡ s
    injected_session app (err e, w) s = refl
    injected_session app (ok _, w) s = refl

    pub pair_request_session :
        (r : PairRequest) (app : App Value Desk) (s : Session)
        → (on_pair_request c codecs env r app s).2 ≡ s
    unfolding on_pair_request
    pair_request_session r app s =
        elim (Result-cases
          (verify_pair_request c env.instant (pairing_window env.instant app.engine) r)) [
            | inr (x, e) ↦ rw (e, on_pair_request) refl
            | inl (key, e) ↦
                rw (e, on_pair_request)
                  (registered_session app
                    (Registry.insert c codecs.devices key r.device_name r.platform env.unix_now
                      env.attempt app.engine.registry app.machine.files)
                    s)
          ]

    pub pair_begin_session :
        (r : PairBeginRequest) (app : App Value Desk) (s : Session)
        → (on_pair_begin c codecs env r app s).2 ≡ s
    unfolding on_pair_begin
    pair_begin_session r app s = elim (Result-cases (Pairing.validate r)) [
      | inr (x, e) ↦ rw (e, on_pair_begin) refl
      | inl (_, e) ↦
          rw (e, on_pair_begin)
            (opened_session app
              (open_pairing r.ttl_seconds env.otp env.instant env.unix_now app.engine) s)
    ]

    pub profile_get_session :
        (r : ProfileGetRequest) (app : App Value Desk) (s : Session)
        → (on_profile_get codecs env r app s).2 ≡ s
    unfolding on_profile_get
    profile_get_session r app s = elim (Option-cases (Store.get app.store r.profile_id)) [
      | inl e ↦ rw (e, on_profile_get) refl
      | inr (p, e) ↦ rw (e, on_profile_get) refl
    ]

    gated_session :
        (enabled : Bool) (x : Handled Value Desk) (app : App Value Desk) (s : Session)
        → x.2 ≡ s
        → (if enabled then x else (err shell_off, app, s)).2 ≡ s
    gated_session true x app s k = k
    gated_session false x app s k = refl

    pub action_set_session :
        (decoded : Outcome ActionSetRequest) (app : App Value Desk) (s : Session)
        → (on_action_set codecs env decoded app s).2 ≡ s
    unfolding on_action_set
    action_set_session (err e) app s =
        gated_session app.engine.settings.shell_actions_enabled (err e, app, s) app s refl
    action_set_session (ok r) app s =
        let x =
          Actions.set codecs.actions r.action env.attempt app.engine.actions app.machine.files in
        gated_session app.engine.settings.shell_actions_enabled (changed codecs env app x s) app s
          (changed_session app x s)

    pub action_delete_session :
        (decoded : Outcome ActionDeleteRequest) (app : App Value Desk) (s : Session)
        → (on_action_delete codecs env decoded app s).2 ≡ s
    unfolding on_action_delete
    action_delete_session (err e) app s =
        gated_session app.engine.settings.shell_actions_enabled (err e, app, s) app s refl
    action_delete_session (ok r) app s =
        let x =
          Actions.delete codecs.actions r.action_id env.attempt app.engine.actions
            app.machine.files in
        gated_session app.engine.settings.shell_actions_enabled (changed codecs env app x s) app s
          (changed_session app x s)
