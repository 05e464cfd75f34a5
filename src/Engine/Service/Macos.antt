-- ===== src/Engine/Service/Macos.antt =====
-- The launch agent: `mod platform` for macOS in engine/crates/muxdeck-engine/src/service.rs.
use muxdeck.Prelude.{String, none, some, [], ◌∷◌, if◌then◌else◌, ok, err}
use muxdeck.Prelude.Text.{format, as_bytes}
use muxdeck.Engine.Errors.{Outcome, service}
use muxdeck.Engine.Disk.{FilePath, write_atomic, display}
use muxdeck.Engine.Service.Texts.{launch_agent_plist, launchd_label}
use muxdeck.Engine.Service.Outputs.{
  ServiceStatus, not_installed, installed_stopped, running, launchctl_reports_a_pid,
}
use muxdeck.Engine.Service.Tool.{
  Tools, Environment, Installation, Job, ◌>>=◌, ◌>>◌, lift, ignore, on_files, daemon_exe,
  transient_exe_note, invoke, checked, create_dir, remove_file,
}

abbrev loading : String
loading = "loading the MuxDeck launch agent"

abbrev listing : String
listing = "querying the MuxDeck launch agent"

abbrev pub plist_at : String → FilePath
plist_at home = record {
  parent = format (home ∷ "/Library/LaunchAgents" ∷ []);
  stem = launchd_label;
  extension = "plist";
}

unfoldable pub plist_path : Environment → Outcome FilePath
plist_path env = elim env.home_dir [
  | none ↦
      err
        (service "locating the LaunchAgents directory" "no home directory was found for this user")
  | some home ↦ ok (plist_at home)
]

module _ {S : Type 0} (tools : Tools S) (env : Environment) where
  -- What stands of the agent is unloaded if that is possible.
  unfoldable pub unload : FilePath → Job S (Unit {0})
  unfolding invoke
  unload path = ignore (invoke tools loading "launchctl" ("unload" ∷ "-w" ∷ display path ∷ []))

  unfoldable pub load : FilePath → Job S (Unit {0})
  unfolding checked
  load path = checked tools loading "launchctl" ("load" ∷ "-w" ∷ display path ∷ [])

  unfoldable pub start : String → FilePath → Job S Installation
  unfolding load transient_exe_note
  start exe path = do
    load path
    lift (ok (record { location = display path; notes = transient_exe_note env exe }))

  unfoldable pub install_at : String → FilePath → Job S Installation
  unfolding unload start create_dir
  install_at exe path = do
    create_dir env "creating the LaunchAgents directory" path.parent
    unload path
    on_files (write_atomic env.registration path (as_bytes (launch_agent_plist exe)))
    start exe path

  unfoldable pub install : String → Job S Installation
  unfolding install_at daemon_exe plist_path
  install config_dir = do
    exe ← lift (daemon_exe env)
    path ← lift (plist_path env)
    install_at exe path

  unfoldable pub remove_agent : FilePath → Job S (Unit {0})
  unfolding unload remove_file
  remove_agent path = do unload path; remove_file env "removing the launch agent plist" path

  unfoldable pub uninstall_at : FilePath → Job S (Unit {0})
  unfolding remove_agent
  uninstall_at path w = elim (w.files path) [ none ↦ (ok tt, w) | some bytes ↦ remove_agent path w ]

  unfoldable pub uninstall : Job S (Unit {0})
  unfolding uninstall_at plist_path
  uninstall = do path ← lift (plist_path env); uninstall_at path

  listed : Job S ServiceStatus
  unfolding invoke launchctl_reports_a_pid
  listed = do
    output ← invoke tools listing "launchctl" ("list" ∷ launchd_label ∷ [])
    lift (
        ok (
          if output.success
          then (if launchctl_reports_a_pid output.stdout then running else installed_stopped)
          else installed_stopped))

  unfoldable pub status_at : FilePath → Job S ServiceStatus
  unfolding listed
  status_at path w = elim (w.files path) [ none ↦ (ok not_installed, w) | some bytes ↦ listed w ]

  unfoldable pub status : Job S ServiceStatus
  unfolding status_at plist_path
  status = do path ← lift (plist_path env); status_at path
