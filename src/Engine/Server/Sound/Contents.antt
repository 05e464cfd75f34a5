-- ===== src/Engine/Server/Sound/Contents.antt =====
-- The handlers of layouts, actions and settings keep the shared state sound.
use muxdeck.Prelude.{
  ◌≡◌, Bool, true, false, if◌then◌else◌, ok, err, Option-cases, inl, inr, unwrap_or,
}
use muxdeck.Protocol.Session.{Role}
use muxdeck.Protocol.Profiles.{
  Profile, ProfileWrapper, ProfileGetRequest, ProfileActivateRequest, ProfileDeleteRequest,
}
use muxdeck.Protocol.Actions.{ActionRunRequest, ActionSetRequest, ActionDeleteRequest}
use muxdeck.Protocol.Settings.{Settings, SettingsPatch, requires_restart}
use muxdeck.Engine.Errors.{Outcome}
use muxdeck.Engine.Crypto.{Crypto}
use muxdeck.Engine.Disk.{Fs}
use muxdeck.Engine.Actions
use muxdeck.Engine.Actions.{ActionStore}
use muxdeck.Engine.Actions.Shell
use muxdeck.Engine.Actions.Shell.{set_call, delete_call, perform, perform-IsValid}
use muxdeck.Engine.Session.{Session, role}
use muxdeck.Engine.Store
use muxdeck.Engine.Store.{Store}
use muxdeck.Engine.Store.Pointer
use muxdeck.Engine.Store.Pointer.{set-IsValid, delete-IsValid, activate-IsValid}
use muxdeck.Engine.Host.{Engine, Machine, run_action, apply_settings}
use muxdeck.Engine.Host.Settled.{apply_settings_frame}
use muxdeck.Engine.Server.State.{Codecs, Env, App, Handled}
use muxdeck.Engine.Server.Content.{
  on_profile_get, on_profile_set, on_profile_activate, on_profile_delete, on_action_run,
  on_action_set, on_action_delete, on_settings_set, stored, switched, publish_active, ran, changed,
  applied, shell_off,
}
use muxdeck.Engine.Server.Sound.{IsSound}

module _ {Value Desk : Type 0} (c : Crypto) (codecs : Codecs Value) (env : Env) where
  pub on_profile_get-IsSound :
      (request : ProfileGetRequest) (app : App Value Desk) (s : Session)
      → IsSound c app
      → IsSound c (on_profile_get codecs env request app s).1
  unfolding on_profile_get
  on_profile_get-IsSound request app s v =
      elim (Option-cases (Store.get app.store request.profile_id)) [
        | inl e ↦ rw (e, on_profile_get) v
        | inr (p, e) ↦ rw (e, on_profile_get) v
      ]

  stored-IsSound :
      (p : Profile Value) (app : App Value Desk) (x : Outcome (Unit {0}) × Store Value × Fs)
      (s : Session)
      → IsSound c app
      → Pointer.IsValid x.1
      → IsSound c (stored codecs env p app x s).1
  unfolding stored
  stored-IsSound p app (err e, store, fs) s v k = record {
    registry = v.registry;
    layouts = k;
    actions = v.actions;
  }
  stored-IsSound p app (ok _, store, fs) s v k = record {
    registry = v.registry;
    layouts = k;
    actions = v.actions;
  }

  pub on_profile_set-IsSound :
      (request : ProfileWrapper Value) (app : App Value Desk) (s : Session)
      → IsSound c app
      → IsSound c (on_profile_set codecs env request app s).1
  unfolding on_profile_set
  on_profile_set-IsSound request app s v =
      let r = unwrap_or (role s) Role.deck in
      stored-IsSound request.profile app
        (Store.set codecs.profiles request.profile r env.attempt app.store app.machine.files) s v
        (set-IsValid codecs.profiles request.profile r env.attempt app.store app.machine.files
          v.layouts)

  publish_active-IsSound :
      (app : App Value Desk) → IsSound c app → IsSound c (publish_active codecs env app)
  unfolding publish_active
  publish_active-IsSound app v = elim (Option-cases (Store.active app.store)) [
    | inl e ↦ rw (e, publish_active) v
    | inr (p, e) ↦
        rw (e, publish_active)
          (record { registry = v.registry; layouts = v.layouts; actions = v.actions })
  ]

  switched-IsSound :
      (app : App Value Desk) (x : Outcome (Unit {0}) × Store Value × Fs) (s : Session)
      → IsSound c app
      → Pointer.IsValid x.1
      → IsSound c (switched codecs env app x s).1
  unfolding switched
  switched-IsSound app (err e, store, fs) s v k = record {
    registry = v.registry;
    layouts = k;
    actions = v.actions;
  }
  switched-IsSound app (ok _, store, fs) s v k =
      publish_active-IsSound _ (record { registry = v.registry; layouts = k; actions = v.actions })

  pub on_profile_activate-IsSound :
      (request : ProfileActivateRequest) (app : App Value Desk) (s : Session)
      → IsSound c app
      → IsSound c (on_profile_activate codecs env request app s).1
  unfolding on_profile_activate
  on_profile_activate-IsSound r app s v =
      switched-IsSound app
        (Store.activate codecs.profiles r.profile_id env.attempt app.store app.machine.files) s v
        (activate-IsValid codecs.profiles r.profile_id env.attempt app.store app.machine.files
          v.layouts)

  pub on_profile_delete-IsSound :
      (request : ProfileDeleteRequest) (app : App Value Desk) (s : Session)
      → IsSound c app
      → IsSound c (on_profile_delete codecs env request app s).1
  unfolding on_profile_delete
  on_profile_delete-IsSound r app s v =
      switched-IsSound app
        (Store.delete codecs.profiles r.profile_id env.attempt app.store app.machine.files) s v
        (delete-IsValid codecs.profiles r.profile_id env.attempt app.store app.machine.files
          v.layouts)

  ran-IsSound :
      (app : App Value Desk) (x : Outcome (Unit {0}) × Machine) (s : Session)
      → IsSound c app
      → IsSound c (ran codecs env app x s).1
  unfolding ran
  ran-IsSound app (err e, m) s v = record {
    registry = v.registry;
    layouts = v.layouts;
    actions = v.actions;
  }
  ran-IsSound app (ok _, m) s v = record {
    registry = v.registry;
    layouts = v.layouts;
    actions = v.actions;
  }

  pub on_action_run-IsSound :
      (request : ActionRunRequest) (app : App Value Desk) (s : Session)
      → IsSound c app
      → IsSound c (on_action_run codecs env request app s).1
  unfolding on_action_run
  on_action_run-IsSound r app s v =
      ran-IsSound app (run_action env.system r.action_id app.engine app.machine) s v

  changed-IsSound :
      (app : App Value Desk) (x : Outcome (Unit {0}) × ActionStore × Fs) (s : Session)
      → IsSound c app
      → Shell.IsValid x.1
      → IsSound c (changed codecs env app x s).1
  unfolding changed
  changed-IsSound app (err e, actions, fs) s v k = record {
    registry = v.registry;
    layouts = v.layouts;
    actions = k;
  }
  changed-IsSound app (ok _, actions, fs) s v k = record {
    registry = v.registry;
    layouts = v.layouts;
    actions = k;
  }

  gated-IsSound :
      (enabled : Bool) (x : Handled Value Desk) (app : App Value Desk) (s : Session)
      → IsSound c app
      → IsSound c x.1
      → IsSound c (if enabled then x else (err shell_off, app, s)).1
  gated-IsSound true x app s v k = k
  gated-IsSound false x app s v k = v

  pub on_action_set-IsSound :
      (decoded : Outcome ActionSetRequest) (app : App Value Desk) (s : Session)
      → IsSound c app
      → IsSound c (on_action_set codecs env decoded app s).1
  unfolding on_action_set
  on_action_set-IsSound (err e) app s v =
      gated-IsSound app.engine.settings.shell_actions_enabled (err e, app, s) app s v v
  on_action_set-IsSound (ok r) app s v =
      let x =
        Actions.set codecs.actions r.action env.attempt app.engine.actions app.machine.files in
      gated-IsSound app.engine.settings.shell_actions_enabled (changed codecs env app x s) app s v (
        changed-IsSound app x s v (
          unfold perform in
          perform-IsValid codecs.actions (set_call r.action env.attempt)
            (app.engine.actions, app.machine.files) v.actions))

  pub on_action_delete-IsSound :
      (decoded : Outcome ActionDeleteRequest) (app : App Value Desk) (s : Session)
      → IsSound c app
      → IsSound c (on_action_delete codecs env decoded app s).1
  unfolding on_action_delete
  on_action_delete-IsSound (err e) app s v =
      gated-IsSound app.engine.settings.shell_actions_enabled (err e, app, s) app s v v
  on_action_delete-IsSound (ok r) app s v =
      let x =
        Actions.delete codecs.actions r.action_id env.attempt app.engine.actions
          app.machine.files in
      gated-IsSound app.engine.settings.shell_actions_enabled (changed codecs env app x s) app s v (
        changed-IsSound app x s v (
          unfold perform in
          perform-IsValid codecs.actions (delete_call r.action_id env.attempt)
            (app.engine.actions, app.machine.files) v.actions))

  applied-IsSound :
      (restart : Bool) (app : App Value Desk) (x : Outcome Settings × Engine × Machine)
      (s : Session)
      → IsSound c app
      → x.1.registry ≡ app.engine.registry
      → x.1.actions ≡ app.engine.actions
      → IsSound c (applied codecs env restart app x s).1
  unfolding applied
  applied-IsSound restart app (err e, g, m) s v r a = record {
    registry = rw r v.registry;
    layouts = v.layouts;
    actions = rw a v.actions;
  }
  applied-IsSound restart app (ok _, g, m) s v r a = record {
    registry = rw r v.registry;
    layouts = v.layouts;
    actions = rw a v.actions;
  }

  pub on_settings_set-IsSound :
      (patch : SettingsPatch) (app : App Value Desk) (s : Session)
      → IsSound c app
      → IsSound c (on_settings_set codecs env patch app s).1
  unfolding on_settings_set
  on_settings_set-IsSound patch app s v =
      let (r, a) = apply_settings_frame codecs.settings env.answers patch app.engine app.machine in
      applied-IsSound (requires_restart patch) app
        (apply_settings codecs.settings env.answers patch app.engine app.machine) s v r a
