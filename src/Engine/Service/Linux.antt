-- ===== src/Engine/Service/Linux.antt =====
-- The systemd user unit: `mod platform` for Linux in engine/crates/muxdeck-engine/src/service.rs.
use muxdeck.Prelude.{String, none, some, List, [], ◌∷◌, ◌++◌, if◌then◌else◌, ok, err}
use muxdeck.Prelude.Text.{format, as_bytes}
use muxdeck.Engine.Errors.{Outcome, service}
use muxdeck.Engine.Disk.{FilePath, write_atomic, display}
use muxdeck.Engine.Service.Texts.{systemd_unit, udev_rule}
use muxdeck.Engine.Service.Outputs.{
  ServiceStatus, not_installed, installed_stopped, running, systemctl_reports_active,
}
use muxdeck.Engine.Service.Tool.{
  Tools, Environment, Installation, Job, ◌>>=◌, ◌>>◌, lift, ignore, on_files, daemon_exe,
  transient_exe_note, invoke, checked, create_dir, remove_file,
}

abbrev pub unit_name : String
unit_name = "muxdeck.service"

abbrev pub udev_rule_file : String
udev_rule_file = "99-muxdeck-uinput.rules"

abbrev pub enabling : String
enabling = "enabling the MuxDeck user unit"

abbrev pub reloading : String
reloading = "reloading the systemd user manager"

abbrev querying : String
querying = "querying the MuxDeck user unit"

abbrev pub unit_at : String → FilePath
unit_at config_home = record {
  parent = format (config_home ∷ "/systemd/user" ∷ []);
  stem = "muxdeck";
  extension = "service";
}

unfoldable pub unit_path : Environment → Outcome FilePath
unit_path env = elim env.config_home [
  | none ↦ err (
      service "locating the systemd user unit directory"
        "no home directory was found for this user")
  | some config_home ↦ ok (unit_at config_home)
]

abbrev pub rule_at : String → FilePath
rule_at config_dir = record { parent = config_dir; stem = "99-muxdeck-uinput"; extension = "rules" }

notes : FilePath → List String
notes rule_path =
    let rule = display rule_path in
    "Input injection needs write access to /dev/uinput, and granting it needs root, so this command did not do it. The rule has been written out for you; install it with:"
    ∷ format (
        "    sudo install -m 644 " ∷ rule ∷ " /etc/udev/rules.d/" ∷ udev_rule_file
        ∷ "\n    sudo udevadm control --reload-rules && sudo udevadm trigger\n    sudo usermod -aG input \"$USER\""
        ∷ [])
    ∷ "Then log out and back in. Group membership is only read at login, so until you do every button fails with a permission error even though the rule is already in place."
    ∷ []

module _ {S : Type 0} (tools : Tools S) (env : Environment) where
  unfoldable pub reload : Job S (Unit {0})
  unfolding checked
  reload = checked tools reloading "systemctl" ("--user" ∷ "daemon-reload" ∷ [])

  unfoldable pub enable : Job S (Unit {0})
  unfolding checked
  enable = checked tools enabling "systemctl" ("--user" ∷ "enable" ∷ "--now" ∷ unit_name ∷ [])

  -- The rule is written out, and the user is told what is left to do.
  unfoldable pub finish : String → String → FilePath → Job S Installation
  unfolding notes transient_exe_note
  finish config_dir exe path = do
    on_files (write_atomic env.rule (rule_at config_dir) (as_bytes udev_rule))
    lift (
        ok (record {
          location = display path;
          notes = notes (rule_at config_dir) ++ transient_exe_note env exe;
        }))

  unfoldable pub start : String → String → FilePath → Job S Installation
  unfolding reload enable finish
  start config_dir exe path = do reload; enable; finish config_dir exe path

  -- The installation of a program at a path.
  unfoldable pub install_at : String → String → FilePath → Job S Installation
  unfolding start create_dir
  install_at config_dir exe path = do
    create_dir env "creating the systemd user unit directory" path.parent
    on_files (write_atomic env.registration path (as_bytes (systemd_unit exe)))
    start config_dir exe path

  unfoldable pub install : String → Job S Installation
  unfolding install_at daemon_exe unit_path
  install config_dir = do
    exe ← lift (daemon_exe env)
    path ← lift (unit_path env)
    install_at config_dir exe path

  -- The unit is disabled if that is possible, and removed.
  unfoldable pub remove_unit : FilePath → Job S (Unit {0})
  unfolding invoke remove_file
  remove_unit path = do
    ignore (invoke tools enabling "systemctl" ("--user" ∷ "disable" ∷ "--now" ∷ unit_name ∷ []))
    remove_file env "removing the systemd user unit" path
    ignore (invoke tools reloading "systemctl" ("--user" ∷ "daemon-reload" ∷ []))

  unfoldable pub uninstall_at : FilePath → Job S (Unit {0})
  unfolding remove_unit
  uninstall_at path w = elim (w.files path) [ none ↦ (ok tt, w) | some bytes ↦ remove_unit path w ]

  unfoldable pub uninstall : Job S (Unit {0})
  unfolding uninstall_at unit_path
  uninstall = do path ← lift (unit_path env); uninstall_at path

  is_active : Job S ServiceStatus
  unfolding invoke systemctl_reports_active
  is_active = do
    output ← invoke tools querying "systemctl" ("--user" ∷ "is-active" ∷ unit_name ∷ [])
    lift (ok (if systemctl_reports_active output.stdout then running else installed_stopped))

  unfoldable pub status_at : FilePath → Job S ServiceStatus
  unfolding is_active
  status_at path w = elim (w.files path) [ none ↦ (ok not_installed, w) | some bytes ↦ is_active w ]

  unfoldable pub status : Job S ServiceStatus
  unfolding status_at unit_path
  status = do path ← lift (unit_path env); status_at path
