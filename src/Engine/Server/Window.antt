-- ===== src/Engine/Server/Window.antt =====
-- What a request does to the pairing window, by its op: the arms of `handle_envelope` in
-- engine/crates/muxdeck-engine/src/server.rs that only an admin socket reaches, and `route`.
use muxdeck.Prelude.{
  String, ◌≡◌, ◌≢◌, refl, ap, ◌∙◌, Bool, true, false, none, Result, ok, err, Result-cases,
  Option-cases, Bool-cases, inl, inr, ◌⊎◌, arith,
}
use muxdeck.Protocol.KnownOps
use muxdeck.Protocol.KnownOps.{KnownOp}
use muxdeck.Protocol.Ops.{known_op}
use muxdeck.Protocol.Envelope.{Envelope, is_supported_version}
use muxdeck.Protocol.Actions.{ActionSetRequest, ActionDeleteRequest}
use muxdeck.Protocol.Profiles.{Profile}
use muxdeck.Protocol.Settings.{Settings, requires_restart}
use muxdeck.Engine.Errors.{Outcome}
use muxdeck.Engine.Crypto.{Crypto}
use muxdeck.Engine.Disk.{Fs}
use muxdeck.Engine.Registry
use muxdeck.Engine.Registry.{Registry}
use muxdeck.Engine.Actions.{ActionStore}
use muxdeck.Engine.Store
use muxdeck.Engine.Store.{Store}
use muxdeck.Engine.Session.{Session}
use muxdeck.Engine.Dispatch.{admin_only, access_for, authorize}
use muxdeck.Engine.Dispatch.Matrix.{authorize_iff}
use muxdeck.Engine.Backend.{InputBackend}
use muxdeck.Engine.InputDispatch.{Runtime}
use muxdeck.Engine.Host.{Engine, Machine, apply_settings, mark_disconnected, close_pairing}
use muxdeck.Engine.Host.Settled.{apply_settings_window}
use muxdeck.Engine.Server.State.{Json, Codecs, Env, App, Handled, payload, publish_devices}
use muxdeck.Engine.Server.Devices.{on_pair_cancel, on_pair_revoke, revoked}
use muxdeck.Engine.Server.Content.{
  on_profile_set, on_profile_delete, on_settings_set, on_action_set, on_action_delete, stored,
  switched, publish_active, changed, applied,
}
use muxdeck.Engine.Server.{handle_op, handle_envelope, route, is_input, decoding}
use muxdeck.Engine.Server.Access.{handle_op-Keeps, handle_input-Keeps}

-- The window is as it was, or closed.
abbrev pub Unopened : {Value Desk : Type 0} → App Value Desk → App Value Desk → Type 0
Unopened app app' = (app'.engine.pairing ≡ app.engine.pairing) ⊎ (app'.engine.pairing ≡ none)

module _ {Value Int Float Desk : Type 0} (c : Crypto) (json : Json Value Int Float)
    (codecs : Codecs Value) (runtime : Runtime Desk) (backend : InputBackend Int Float Desk)
    (env : Env) where
  revoked_window :
      (id : String) (app : App Value Desk) (x : Outcome Bool × Registry × Fs) (s : Session)
      → (revoked c codecs env id app x s).1.engine.pairing ≡ app.engine.pairing
  unfolding revoked mark_disconnected publish_devices
  revoked_window id app (err e, r, fs) s = refl
  revoked_window id app (ok false, r, fs) s = refl
  revoked_window id app (ok true, r, fs) s = refl

  stored_window :
      (p : Profile Value) (app : App Value Desk) (x : Outcome (Unit {0}) × Store Value × Fs)
      (s : Session)
      → (stored codecs env p app x s).1.engine.pairing ≡ app.engine.pairing
  unfolding stored
  stored_window p app (err e, st, fs) s = refl
  stored_window p app (ok _, st, fs) s = refl

  publish_active_window :
      (app : App Value Desk) → (publish_active codecs env app).engine.pairing ≡ app.engine.pairing
  unfolding publish_active
  publish_active_window app = elim (Option-cases (Store.active app.store)) [
    | inl e ↦ rw (e, publish_active) refl
    | inr (p, e) ↦ rw (e, publish_active) refl
  ]

  switched_window :
      (app : App Value Desk) (x : Outcome (Unit {0}) × Store Value × Fs) (s : Session)
      → (switched codecs env app x s).1.engine.pairing ≡ app.engine.pairing
  unfolding switched
  switched_window app (err e, st, fs) s = refl
  switched_window app (ok _, st, fs) s = publish_active_window _

  changed_window :
      (app : App Value Desk) (x : Outcome (Unit {0}) × ActionStore × Fs) (s : Session)
      → (changed codecs env app x s).1.engine.pairing ≡ app.engine.pairing
  unfolding changed
  changed_window app (err e, a, fs) s = refl
  changed_window app (ok _, a, fs) s = refl

  action_set_window :
      (decoded : Outcome ActionSetRequest) (app : App Value Desk) (s : Session)
      → (on_action_set codecs env decoded app s).1.engine.pairing ≡ app.engine.pairing
  unfolding on_action_set
  action_set_window decoded app s = elim (Bool-cases app.engine.settings.shell_actions_enabled) [
    | inr off ↦ rw (off, on_action_set) refl
    | inl on ↦ elim (Result-cases decoded) [
      | inr (x, e) ↦ rw (on, e, on_action_set) refl
      | inl (r, e) ↦ rw (on, e, on_action_set) (changed_window app _ s)
    ]
  ]

  action_delete_window :
      (decoded : Outcome ActionDeleteRequest) (app : App Value Desk) (s : Session)
      → (on_action_delete codecs env decoded app s).1.engine.pairing ≡ app.engine.pairing
  unfolding on_action_delete
  action_delete_window decoded app s = elim (Bool-cases app.engine.settings.shell_actions_enabled) [
    | inr off ↦ rw (off, on_action_delete) refl
    | inl on ↦ elim (Result-cases decoded) [
      | inr (x, e) ↦ rw (on, e, on_action_delete) refl
      | inl (r, e) ↦ rw (on, e, on_action_delete) (changed_window app _ s)
    ]
  ]

  applied_window :
      (restart : Bool) (app : App Value Desk) (x : Outcome Settings × Engine × Machine)
      (s : Session)
      → x.1.pairing ≡ app.engine.pairing
      → (applied codecs env restart app x s).1.engine.pairing ≡ app.engine.pairing
  unfolding applied
  applied_window restart app (err e, g, m) s h = h
  applied_window restart app (ok _, g, m) s h = h

  decoding-Unopened :
      {T : Type 0} (decoded : Result T String)
      (handler : T → App Value Desk → Session → Handled Value Desk) (app : App Value Desk)
      (s : Session)
      → ((request : T) → (handler request app s).1.engine.pairing ≡ app.engine.pairing)
      → Unopened app (decoding c json codecs runtime backend env decoded handler app s).1
  decoding-Unopened (ok request) handler app s k = inl (k request)
  decoding-Unopened (err e) handler app s k = inl refl

  admin_op-Unopened :
      (op : KnownOp) (d : Value) (app : App Value Desk) (s : Session)
      → access_for op ≡ admin_only
      → op ≢ KnownOps.pair_begin
      → Unopened app (handle_op c json codecs runtime backend env op d app s).1
  unfolding handle_op access_for on_pair_cancel on_pair_revoke on_profile_set on_profile_delete
      on_settings_set close_pairing
  admin_op-Unopened KnownOp.pair_begin d app s h other = absurd (other refl)
  admin_op-Unopened KnownOp.pair_cancel d app s h other = inr refl
  admin_op-Unopened KnownOp.pair_list_devices d app s h other = inl refl
  admin_op-Unopened KnownOp.pair_revoke d app s h other =
      decoding-Unopened (json.pair_revoke d) (on_pair_revoke c codecs env) app s (λ r.
        revoked_window r.device_id app
          (Registry.revoke codecs.devices r.device_id env.attempt app.engine.registry
            app.machine.files)
          s)
  admin_op-Unopened KnownOp.action_set d app s h other =
      inl (action_set_window (payload (json.action_set d)) app s)
  admin_op-Unopened KnownOp.action_delete d app s h other =
      inl (action_delete_window (payload (json.action_delete d)) app s)
  admin_op-Unopened KnownOp.profile_set d app s h other =
      decoding-Unopened (json.profile_set d) (on_profile_set codecs env) app s
        (λ r. stored_window r.profile app _ s)
  admin_op-Unopened KnownOp.profile_delete d app s h other =
      decoding-Unopened (json.profile_delete d) (on_profile_delete codecs env) app s
        (λ r. switched_window app _ s)
  admin_op-Unopened KnownOp.settings_get d app s h other = inl refl
  admin_op-Unopened KnownOp.settings_set d app s h other =
      decoding-Unopened (json.settings_set d) (on_settings_set codecs env) app s (λ r.
        applied_window (requires_restart r) app
          (apply_settings codecs.settings env.answers r app.engine app.machine) s
          (apply_settings_window codecs.settings env.answers r app.engine app.machine))
  admin_op-Unopened _ d app s h other = absurd (cc)

  admin_or_not : (op : KnownOp) → (access_for op ≡ admin_only) ⊎ (access_for op ≢ admin_only)
  admin_or_not op = ground arith

  handle_op-Unopened :
      (op : KnownOp) (d : Value) (app : App Value Desk) (s : Session)
      → op ≢ KnownOps.pair_begin
      → Unopened app (handle_op c json codecs runtime backend env op d app s).1
  handle_op-Unopened op d app s other = elim (admin_or_not op) [
    | inl admin ↦ admin_op-Unopened op d app s admin other
    | inr ordinary ↦ (handle_op-Keeps c json codecs runtime backend env op d app s ordinary).window
  ]

  handle_envelope-Unopened :
      (e : Envelope Value) (op : KnownOp) (app : App Value Desk) (s : Session)
      → authorize e.op s ≡ ok op
      → op ≢ KnownOps.pair_begin
      → Unopened app (handle_envelope c json codecs runtime backend env e app s).1
  unfolding handle_envelope
  handle_envelope-Unopened e op app s granted other = elim (Bool-cases (is_supported_version e)) [
    | inl v ↦ rw (v, granted, handle_envelope) (handle_op-Unopened op e.d app s other)
    | inr v ↦ rw (v, handle_envelope) (inl refl)
  ]

  -- A request of any other op than `pair.begin`, on whatever socket, opens no pairing window.
  pub route-Unopened :
      (e : Envelope Value) (app : App Value Desk) (s : Session)
      → e.op ≢ known_op KnownOps.pair_begin
      → Unopened app (route c json codecs runtime backend env e app s).1
  unfolding route
  route-Unopened e app s other = elim (Bool-cases (is_supported_version e)) [
    | inr v ↦ rw (v, route) (inl refl)
    | inl v ↦ elim (Result-cases (authorize e.op s)) [
      | inr (x, denied) ↦ rw (v, denied, route) (inl refl)
      | inl (op, granted) ↦
          let named = ((authorize_iff e.op op s).0 granted).0 in
          elim (Bool-cases (is_input op)) [
            | inl i ↦
                rw (v, granted, i, route)
                  (handle_input-Keeps c json codecs runtime backend env op e.d app s).window
            | inr i ↦
                rw (v, granted, i, route)
                  (handle_envelope-Unopened e op app s granted
                    (λ same. other (named ∙ ap known_op same)))
          ]
    ]
  ]
