-- ===== src/Engine/Host.antt =====
-- The state that every socket shares, and what changes it: engine/crates/muxdeck-engine/src/engine.rs.
-- The startup entry of the platform (service.rs) and the mDNS advertisement (discovery.rs) are
-- parts of the state that change when the call to set them succeeds.
pub mod Settled
use muxdeck.Prelude.{
  ℕ, String, Bool, true, false, not, ◌&&◌, Option, none, some, List, [], ◌∷◌, ◌==◌, nat_eq,
  string_eq, if◌then◌else◌, unwrap_or, is_ok, Result, ok, err, ok_or, ◌>>=◌,
}
use muxdeck.Prelude.Sets.{contains}
use muxdeck.Protocol.Errors.{disabled, not_found}
use muxdeck.Protocol.Session.{Capabilities}
use muxdeck.Protocol.Settings.{Settings, SettingsPatch}
use muxdeck.Protocol.Pairing.{DeviceInfo}
use muxdeck.Protocol.Actions.{Action}
use muxdeck.Engine.Errors.{EngineError, Outcome, wire}
use muxdeck.Engine.Disk.{FilePath, Fs, Attempt, Codec, write_json}
use muxdeck.Engine.Identity.{Identity}
use muxdeck.Engine.Registry
use muxdeck.Engine.Registry.{Registry}
use muxdeck.Engine.Pairing.{PairingWindow, open_window, filter_open}
use muxdeck.Engine.Backend.{InputError, BackendCapabilities}
use muxdeck.Engine.Actions
use muxdeck.Engine.Actions.{ActionStore, Command, spawn}

pub record Advertisement : Type 0 where
  pub host_name : String
  pub port : ℕ

-- `Engine`, less the store of layouts, which no operation here reads.
pub record Engine : Type 0 where
  pub settings_path : FilePath
  pub identity : Identity
  pub settings : Settings
  pub registry : Registry
  pub pairing : Option PairingWindow
  pub connected : List String
  pub port : ℕ
  pub actions : ActionStore
  pub advertisement : Option Advertisement

-- What lies outside the process: files, the startup entry, and the programs that were started.
pub record Machine : Type 0 where
  pub files : Fs
  pub starts_at_login : Bool
  pub started : List Command

-- What the system answers during one `apply_settings`.
pub record Answers : Type 0 where
  pub service : Bool → Outcome (Unit {0})
  pub attempt : Attempt
  pub advertise : Outcome (Unit {0})

-- The six `if let Some(..)` of `apply_settings`.
unfoldable pub patched : SettingsPatch → Settings → Settings
patched p s = record {
  port = unwrap_or p.port s.port;
  host_name = unwrap_or p.host_name s.host_name;
  shell_actions_enabled = unwrap_or p.shell_actions_enabled s.shell_actions_enabled;
  telemetry_enabled = unwrap_or p.telemetry_enabled s.telemetry_enabled;
  telemetry_interval_ms = unwrap_or p.telemetry_interval_ms s.telemetry_interval_ms;
  autostart = unwrap_or p.autostart s.autostart;
}

abbrev pub same_flag : Bool → Bool → Bool
same_flag true b = b
same_flag false b = not b

-- `service::install` or `service::uninstall`, if the flag changed.
unfoldable pub apply_autostart : Answers → Bool → Bool → Machine → Outcome (Unit {0}) × Machine
apply_autostart answers current next m =
    if same_flag next current then (ok tt, m) else elim (answers.service next) [
      | err e ↦ (err e, m)
      | ok _ ↦ (ok tt, record m { starts_at_login = next })
    ]

-- `advertise`: the new advertisement replaces the old one, if it starts.
unfoldable pub advertise : Outcome (Unit {0}) → Engine → Outcome (Unit {0}) × Engine
advertise (err e) g = (err e, g)
advertise (ok _) g = (
  ok tt,
  record g { advertisement = some (record { host_name = g.settings.host_name; port = g.port }) },
)

unfoldable pub stop_advertising : Engine → Engine
stop_advertising g = record g { advertisement = none }

unfoldable pub readvertise : Outcome (Unit {0}) → Engine → Outcome (Unit {0}) × Engine
unfolding advertise stop_advertising
readvertise answer g = advertise answer (stop_advertising g)

-- `update_settings`: the memory follows the file.
unfoldable pub update_settings :
    Codec Settings → Attempt → Settings → Engine → Machine → Outcome (Unit {0}) × Engine × Machine
update_settings codec attempt next g m =
    let (r, fs) = write_json codec attempt g.settings_path next m.files in
    elim r [
      | err e ↦ (err e, g, record m { files = fs })
      | ok _ ↦ (ok tt, record g { settings = next }, record m { files = fs })
    ]

-- After the write: a failure to advertise again is only logged.
renamed : Answers → String → Engine → Engine
unfolding readvertise
renamed answers old g =
    if g.settings.host_name == old then g else (readvertise answers.advertise g).1

settle :
    Answers
    → Settings
    → Settings
    → Outcome (Unit {0}) × Engine × Machine
    → Outcome Settings × Engine × Machine
unfolding renamed
settle answers current next (err e, g, m) = (err e, g, m)
settle answers current next (ok _, g, m) = (ok next, renamed answers current.host_name g, m)

persist_settings :
    Codec Settings
    → Answers
    → Settings
    → Settings
    → Engine
    → Outcome (Unit {0}) × Machine
    → Outcome Settings × Engine × Machine
unfolding update_settings settle
persist_settings codec answers current next g (err e, m) = (err e, g, m)
persist_settings codec answers current next g (ok _, m) =
    settle answers current next (update_settings codec answers.attempt next g m)

unfoldable pub apply_settings :
    Codec Settings
    → Answers
    → SettingsPatch
    → Engine
    → Machine
    → Outcome Settings × Engine × Machine
unfolding patched apply_autostart persist_settings
apply_settings codec answers patch g m =
    let current = g.settings in
    let next = patched patch current in
    persist_settings codec answers current next g
      (apply_autostart answers current.autostart next.autostart m)

unfoldable pub run_found :
    (Command → Result (Unit {0}) String) → Option Action → Machine → Outcome (Unit {0}) × Machine
unfolding spawn
run_found system none m =
    (err (wire not_found "no such action. A button can outlive the action it points at."), m)
run_found system (some action) m =
    let (r, started) = spawn system action m.started in (r, record m { started = started })

unfoldable pub run_action :
    (Command → Result (Unit {0}) String) → String → Engine → Machine → Outcome (Unit {0}) × Machine
unfolding run_found Actions.get
run_action system id g m =
    if not g.settings.shell_actions_enabled
    then (
      err (
          wire disabled
            "shell actions are switched off. Enable them in the MuxDeck control panel; any paired device will then be able to run every defined action."),
      m,
    )
    else run_found system (Actions.get g.actions id) m

-- `capabilities`, from the backend's `preflight` and its own list.
unfoldable pub capabilities :
    Result (Unit {0}) InputError → BackendCapabilities → Engine → Capabilities
capabilities preflight backend g =
    let usable = is_ok preflight in
    record {
      text_unicode = usable && backend.text_unicode;
      media_keys = usable && backend.media_keys;
      mouse = usable && backend.mouse;
      shell_actions = g.settings.shell_actions_enabled;
    }

unfoldable pub list_devices : Engine → List DeviceInfo
unfolding Registry.list
list_devices g = Registry.list g.connected g.registry

unfoldable pub mark_connected : String → Engine → Engine
unfolding contains
mark_connected id g =
    if contains id g.connected then g else record g { connected = id ∷ g.connected }

unfoldable pub discard : String → List String → List String
discard id [] = []
discard id (x ∷ xs) = let rest = discard id xs in if x == id then rest else x ∷ rest

unfoldable pub mark_disconnected : String → Engine → Engine
unfolding discard
mark_disconnected id g = record g { connected = discard id g.connected }

-- `open_pairing`: a new window replaces an open one, unless no code could be drawn.
unfoldable pub open_pairing :
    Option ℕ → Outcome String → ℕ → ℕ → Engine → Outcome PairingWindow × Engine
unfolding open_window
open_pairing ttl otp instant unix_now g = elim (open_window ttl otp instant unix_now) [
  | err e ↦ (err e, g)
  | ok w ↦ (ok w, record g { pairing = some w })
]

unfoldable pub close_pairing : Engine → Engine
close_pairing g = record g { pairing = none }

unfoldable pub pairing_window : ℕ → Engine → Option PairingWindow
unfolding filter_open
pairing_window instant g = filter_open instant g.pairing
