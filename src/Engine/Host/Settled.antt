-- ===== src/Engine/Host/Settled.antt =====
-- What `apply_settings` and `run_action` leave behind, on every path.
use muxdeck.Prelude.{
  String, ◌≡◌, ◌≢◌, ◌↔◌, refl, ap, ◌∙◌, Bool, true, none, some, ◌∷◌, string_eq, if◌then◌else◌,
  is_ok, Result, ok, err, arith, Result-cases, Option-cases, inl, inr, ◌⊎◌,
}
use muxdeck.Protocol.Settings.{Settings, SettingsPatch}
use muxdeck.Protocol.Actions.{Action}
use muxdeck.Engine.Errors.{EngineError, Outcome}
use muxdeck.Engine.Disk.{Fs, Codec, CodecLaw, write_json, read_json_or}
use muxdeck.Engine.Disk.Json.{read-write_json}
use muxdeck.Engine.Actions
use muxdeck.Engine.Actions.{Command, command_of, spawn}
use muxdeck.Engine.Host.{
  Engine, Machine, Answers, patched, apply_autostart, update_settings, renamed, settle,
  persist_settings, apply_settings, run_action, run_found, readvertise, advertise, stop_advertising,
}

renamed_settings :
    (answers : Answers) (old : String) (g : Engine) → (renamed answers old g).settings ≡ g.settings
unfolding renamed readvertise advertise stop_advertising
renamed_settings answers old g = ground arith

apply_autostart_flag :
    (answers : Answers) (current next : Bool) (m m' : Machine)
    → apply_autostart answers current next m ≡ (ok tt, m')
    → (m'.files ≡ m.files) × (m.starts_at_login ≡ current → m'.starts_at_login ≡ next)
unfolding apply_autostart
apply_autostart_flag answers current next m m' h = ground arith

apply_autostart_files :
    (answers : Answers) (current next : Bool) (m : Machine)
    → (apply_autostart answers current next m).1.files ≡ m.files
unfolding apply_autostart
apply_autostart_files answers current next m = ground arith

module _ (codec : Codec Settings) (law : CodecLaw codec) (answers : Answers) (context : String)
    (default : Settings) where
  -- What the settings file is read as.
  abbrev stored : Engine → Fs → Outcome Settings
  stored g fs = read_json_or codec none g.settings_path context default fs

  update_settings_lem :
      (next : Settings) (g : Engine) (m : Machine)
      → g.settings_path.extension ≢ "tmp"
      → let (r, g', m') = update_settings codec answers.attempt next g m in
        (g' ≡ (if is_ok r then record g { settings = next } else g))
        × (stored g m'.files ≡ (if is_ok r then ok next else stored g m.files))
        × (m'.starts_at_login ≡ m.starts_at_login)
        × (m'.started ≡ m.started)
  unfolding update_settings
  update_settings_lem next g m plain =
      let file =
        read-write_json codec law answers.attempt g.settings_path context next default m.files
          plain in
      elim (Result-cases (write_json codec answers.attempt g.settings_path next m.files).0) [
        | inl (_, e) ↦ rw (e, update_settings) (refl, rw e at file, refl, refl)
        | inr (x, e) ↦ rw (e, update_settings) (refl, rw e at file, refl, refl)
      ]

  -- On success the settings are the patched ones, in memory, in the answer and in the file, and the
  -- startup entry follows the setting; after an error memory and file are as they were.
  abbrev pub Settled :
      SettingsPatch → Engine → Machine → Outcome Settings × Engine × Machine → Type 0
  Settled patch g m (ok s, g', m') =
      (s ≡ patched patch g.settings)
      × (g'.settings ≡ s)
      × (stored g m'.files ≡ ok s)
      × (m.starts_at_login ≡ g.settings.autostart → m'.starts_at_login ≡ s.autostart)
  Settled patch g m (err e, g', m') = (g' ≡ g) × (stored g m'.files ≡ stored g m.files)

  settle-ok :
      (patch : SettingsPatch) (g : Engine) (m : Machine) (x : Outcome (Unit {0}) × Engine × Machine)
      → x.0 ≡ ok tt
      → x.1 ≡ record g { settings = patched patch g.settings }
      → stored g x.2.files ≡ ok (patched patch g.settings)
      → (m.starts_at_login ≡ g.settings.autostart
          → x.2.starts_at_login ≡ (patched patch g.settings).autostart)
      → Settled patch g m (settle answers g.settings (patched patch g.settings) x)
  unfolding settle
  settle-ok patch g m (ok _, g', m') e memory file flag = (
    refl,
    renamed_settings answers g.settings.host_name g' ∙ ap (λ (h : Engine). h.settings) memory,
    file,
    flag,
  )
  settle-ok patch g m (err x, g', m') e memory file flag = absurd (cc)

  settle-err :
      (patch : SettingsPatch) (g : Engine) (m : Machine) (x : Outcome (Unit {0}) × Engine × Machine)
      (error : EngineError)
      → x.0 ≡ err error
      → x.1 ≡ g
      → stored g x.2.files ≡ stored g m.files
      → Settled patch g m (settle answers g.settings (patched patch g.settings) x)
  unfolding settle
  settle-err patch g m (ok _, g', m') error e memory file = absurd (cc)
  settle-err patch g m (err x, g', m') error e memory file = (memory, file)

  persist_settings-Settled :
      (patch : SettingsPatch) (g : Engine) (m m1 : Machine) (r : Outcome (Unit {0}))
      → g.settings_path.extension ≢ "tmp"
      → m1.files ≡ m.files
      → (r ≡ ok tt
          → m.starts_at_login ≡ g.settings.autostart
          → m1.starts_at_login ≡ (patched patch g.settings).autostart)
      → Settled patch g m
          (persist_settings codec answers g.settings (patched patch g.settings) g (r, m1))
  unfolding persist_settings
  persist_settings-Settled patch g m m1 (err e) plain same flag = (refl, rw same)
  persist_settings-Settled patch g m m1 (ok _) plain same flag =
      let next = patched patch g.settings in
      let (memory, file, entry, _) = update_settings_lem next g m1 plain in
      elim (Result-cases (update_settings codec answers.attempt next g m1).0) [
        | inl (_, e) ↦
            settle-ok patch g m (update_settings codec answers.attempt next g m1) e (rw e at memory)
              (rw e at file) (λ h. entry ∙ flag refl h)
        | inr (x, e) ↦
            settle-err patch g m (update_settings codec answers.attempt next g m1) x e
              (rw e at memory) ((rw e at file) ∙ ap (stored g) same)
      ]

  -- Whatever the system answers to the change of the startup entry, to the write and to the
  -- advertisement, `apply_settings` succeeds with the patched settings in memory and in the file and
  -- with a startup entry that follows the setting, if it did before; or it fails and leaves memory
  -- and file as they were. This holds if the codec reads what it writes and the file's extension is
  -- not tmp.
  pub apply_settings-Settled :
      (patch : SettingsPatch) (g : Engine) (m : Machine)
      → g.settings_path.extension ≢ "tmp"
      → Settled patch g m (apply_settings codec answers patch g m)
  unfolding apply_settings
  apply_settings-Settled patch g m plain =
      let next = patched patch g.settings in
      let x = apply_autostart answers g.settings.autostart next.autostart m in
      persist_settings-Settled patch g m x.1 x.0 plain
        (apply_autostart_files answers g.settings.autostart next.autostart m)
        (λ e.
          (apply_autostart_flag answers g.settings.autostart next.autostart m x.1
            (ap (λ r. (r, x.1)) e)).1)

-- A run of an action that fails starts nothing.
run_action_refused :
    (system : Command → Result (Unit {0}) String) (id : String) (g : Engine) (m : Machine)
    (e : EngineError)
    → (run_action system id g m).0 ≡ err e
    → run_action system id g m ≡ (err e, m)
unfolding run_action run_found spawn
run_action_refused system id g m e h = ground arith

run_action_settled :
    (system : Command → Result (Unit {0}) String) (id : String) (g : Engine) (m : Machine)
    → let run = run_action system id g m in
      (run.0 ≡ ok tt) ⊎ ((e : EngineError) × (run ≡ (err e, m)))
run_action_settled system id g m = elim (Result-cases (run_action system id g m).0) [
  | inl (tt, x) ↦ inl x
  | inr (e, x) ↦ inr (e, run_action_refused system id g m e x)
]

-- A run of an action is answered with success exactly when shell actions are switched on, the action
-- is defined and the system starts it; then the defined command with the defined arguments is
-- started and nothing else changes. Any other run is answered with an error and starts nothing.
pub run_action_iff :
    (system : Command → Result (Unit {0}) String) (id : String) (g : Engine) (m m' : Machine)
    → ((run_action system id g m ≡ (ok tt, m')) ↔ (
        (g.settings.shell_actions_enabled ≡ true)
        × ((a : Action) × (Actions.get g.actions id ≡ some a)
            × (system (command_of a) ≡ ok tt)
            × (m' ≡ record m { started = command_of a ∷ m.started }))))
      × (((run_action system id g m).0 ≡ ok tt)
          ⊎ ((e : EngineError) × (run_action system id g m ≡ (err e, m))))
unfolding run_action run_found spawn
run_action_iff system id g m m' = (
  elim (Option-cases (Actions.get g.actions id)) [
    | inl e ↦ ground arith
    | inr (a, e) ↦ ground arith
  ],
  run_action_settled system id g m,
)

-- A change of the settings touches neither the registry nor the actions.
pub apply_settings_frame :
    (codec : Codec Settings) (answers : Answers) (patch : SettingsPatch) (g : Engine) (m : Machine)
    → let g' = (apply_settings codec answers patch g m).1 in
      (g'.registry ≡ g.registry) × (g'.actions ≡ g.actions)
unfolding apply_settings persist_settings settle renamed update_settings apply_autostart readvertise
    advertise stop_advertising
apply_settings_frame codec answers patch g m = ground arith

-- A change of the settings leaves the pairing window alone.
pub apply_settings_window :
    (codec : Codec Settings) (answers : Answers) (patch : SettingsPatch) (g : Engine) (m : Machine)
    → (apply_settings codec answers patch g m).1.pairing ≡ g.pairing
unfolding apply_settings persist_settings settle renamed update_settings apply_autostart readvertise
    advertise stop_advertising
apply_settings_window codec answers patch g m = ground arith
