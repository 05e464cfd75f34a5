-- ===== src/Engine/Server/Content.antt =====
-- The handlers of layouts, actions and settings: the `profile.*`, `action.*` and `settings.*` arms
-- of `handle_envelope` in engine/crates/muxdeck-engine/src/server.rs.
use muxdeck.Prelude.{Bool, none, some, [], if◌then◌else◌, unwrap_or, ok, err}
use muxdeck.Protocol.Errors.{not_found, disabled}
use muxdeck.Protocol.Session.{Role}
use muxdeck.Protocol.Profiles.{
  Profile, ProfileWrapper, ProfileGetRequest, ProfileActivateRequest, ProfileDeleteRequest,
}
use muxdeck.Protocol.Actions.{ActionRunRequest, ActionSetRequest, ActionDeleteRequest}
use muxdeck.Protocol.Settings.{Settings, SettingsPatch, requires_restart}
use muxdeck.Engine.Errors.{EngineError, Outcome, wire}
use muxdeck.Engine.Disk.{Fs}
use muxdeck.Engine.Session.{Session, role}
use muxdeck.Engine.Store
use muxdeck.Engine.Store.{Store}
use muxdeck.Engine.Actions
use muxdeck.Engine.Actions.{ActionStore}
use muxdeck.Engine.Host.{Engine, Machine, run_action, apply_settings}
use muxdeck.Engine.Server.State.{
  profile_reply, profiles_reply, actions_reply, settings_set_reply, empty_reply, profile_changed,
  Codecs, Env, App, Handled, publish, with_profiles, with_actions,
}

abbrev pub shell_off : EngineError
shell_off =
    wire disabled
      "shell actions are switched off. Enable them in the MuxDeck control panel; any paired device will then be able to run every defined action."

module _ {Value Desk : Type 0} (codecs : Codecs Value) (env : Env) where
  unfoldable pub on_profile_get : ProfileGetRequest → App Value Desk → Session → Handled Value Desk
  unfolding Store.get
  on_profile_get request app s = elim (Store.get app.store request.profile_id) [
    | none ↦ (err (wire not_found "no such profile"), app, s)
    | some p ↦ (ok (profile_reply p), app, s)
  ]

  unfoldable pub on_profile_list : App Value Desk → Session → Handled Value Desk
  unfolding Store.list
  on_profile_list app s = (ok (profiles_reply (Store.list app.store)), app, s)

  unfoldable pub stored :
      Profile Value
      → App Value Desk
      → Outcome (Unit {0}) × Store Value × Fs
      → Session
      → Handled Value Desk
  stored p app (err e, store, fs) s = (err e, with_profiles store fs app, s)
  stored p app (ok _, store, fs) s =
      (ok empty_reply, publish (profile_changed p) (with_profiles store fs app), s)

  unfoldable pub on_profile_set :
      ProfileWrapper Value → App Value Desk → Session → Handled Value Desk
  unfolding Store.set stored role
  on_profile_set request app s =
      stored request.profile app
        (Store.set codecs.profiles request.profile (unwrap_or (role s) Role.deck) env.attempt
          app.store app.machine.files)
        s

  unfoldable pub publish_active : App Value Desk → App Value Desk
  unfolding Store.active
  publish_active app = elim (Store.active app.store) [
    | none ↦ app
    | some p ↦ publish (profile_changed p) app
  ]

  unfoldable pub switched :
      App Value Desk → Outcome (Unit {0}) × Store Value × Fs → Session → Handled Value Desk
  unfolding publish_active
  switched app (err e, store, fs) s = (err e, with_profiles store fs app, s)
  switched app (ok _, store, fs) s =
      (ok empty_reply, publish_active (with_profiles store fs app), s)

  unfoldable pub on_profile_activate :
      ProfileActivateRequest → App Value Desk → Session → Handled Value Desk
  unfolding Store.activate switched
  on_profile_activate request app s =
      switched app
        (Store.activate codecs.profiles request.profile_id env.attempt app.store app.machine.files)
        s

  unfoldable pub on_profile_delete :
      ProfileDeleteRequest → App Value Desk → Session → Handled Value Desk
  unfolding Store.delete switched
  on_profile_delete request app s =
      switched app
        (Store.delete codecs.profiles request.profile_id env.attempt app.store app.machine.files) s

  unfoldable pub ran : App Value Desk → Outcome (Unit {0}) × Machine → Session → Handled Value Desk
  ran app (err e, m) s = (err e, record app { machine = m }, s)
  ran app (ok _, m) s = (ok empty_reply, record app { machine = m }, s)

  unfoldable pub on_action_run : ActionRunRequest → App Value Desk → Session → Handled Value Desk
  unfolding run_action ran
  on_action_run request app s =
      ran app (run_action env.system request.action_id app.engine app.machine) s

  unfoldable pub on_action_list : App Value Desk → Session → Handled Value Desk
  unfolding Actions.list
  on_action_list app s = (
    ok (
        actions_reply (
          if app.engine.settings.shell_actions_enabled
          then Actions.list app.engine.actions
          else [])),
    app,
    s,
  )

  unfoldable pub changed :
      App Value Desk → Outcome (Unit {0}) × ActionStore × Fs → Session → Handled Value Desk
  changed app (err e, actions, fs) s = (err e, with_actions actions fs app, s)
  changed app (ok _, actions, fs) s = (ok empty_reply, with_actions actions fs app, s)

  -- `require_shell_actions` comes before the payload is read.
  unfoldable pub on_action_set :
      Outcome ActionSetRequest → App Value Desk → Session → Handled Value Desk
  unfolding Actions.set changed
  on_action_set decoded app s =
      if app.engine.settings.shell_actions_enabled
      then elim decoded [
        | err e ↦ (err e, app, s)
        | ok request ↦
            changed app
              (Actions.set codecs.actions request.action env.attempt app.engine.actions
                app.machine.files)
              s
      ]
      else (err shell_off, app, s)

  unfoldable pub on_action_delete :
      Outcome ActionDeleteRequest → App Value Desk → Session → Handled Value Desk
  unfolding Actions.delete changed
  on_action_delete decoded app s =
      if app.engine.settings.shell_actions_enabled
      then elim decoded [
        | err e ↦ (err e, app, s)
        | ok request ↦
            changed app
              (Actions.delete codecs.actions request.action_id env.attempt app.engine.actions
                app.machine.files)
              s
      ]
      else (err shell_off, app, s)

  unfoldable pub applied :
      Bool → App Value Desk → Outcome Settings × Engine × Machine → Session → Handled Value Desk
  applied restart app (err e, g, m) s = (err e, record app { engine = g; machine = m }, s)
  applied restart app (ok _, g, m) s =
      (ok (settings_set_reply restart), record app { engine = g; machine = m }, s)

  unfoldable pub on_settings_set : SettingsPatch → App Value Desk → Session → Handled Value Desk
  unfolding apply_settings applied requires_restart
  on_settings_set patch app s =
      applied (requires_restart patch) app
        (apply_settings codecs.settings env.answers patch app.engine app.machine) s
