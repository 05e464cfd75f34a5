-- ===== src/Engine/Service/Windows.antt =====
-- The scheduled task: `mod platform` for Windows in engine/crates/muxdeck-engine/src/service.rs.
use muxdeck.Prelude.{
  String, ◌==◌, string_eq, Option, none, some, List, [], ◌∷◌, if◌then◌else◌, ok, err,
}
use muxdeck.Prelude.Text.{format}
use muxdeck.Engine.Errors.{Outcome, service}
use muxdeck.Engine.Disk.{FilePath, write_atomic, display}
use muxdeck.Engine.Service.Texts.{windows_task_xml, utf16le_with_bom}
use muxdeck.Engine.Service.Outputs.{
  ServiceStatus, not_installed, installed_stopped, running, parse_schtasks_status,
}
use muxdeck.Engine.Service.Tool.{
  Tools, Environment, Installation, Job, ◌>>=◌, ◌>>◌, lift, on_files, daemon_exe,
  transient_exe_note, invoke, checked,
}

abbrev pub task_name : String
task_name = "MuxDeck"

abbrev creating : String
creating = "creating the MuxDeck scheduled task"

abbrev pub deleting : String
deleting = "deleting the MuxDeck scheduled task"

abbrev pub querying : String
querying = "querying the MuxDeck scheduled task"

abbrev pub delete_args : List String
delete_args = "/Delete" ∷ "/TN" ∷ task_name ∷ "/F" ∷ []

abbrev pub query_args : List String
query_args = "/Query" ∷ "/TN" ∷ task_name ∷ "/FO" ∷ "CSV" ∷ "/NH" ∷ []

abbrev pub definition_at : String → FilePath
definition_at config_dir = record {
  parent = config_dir;
  stem = "scheduled-task";
  extension = "xml";
}

-- A domain that is set and not empty qualifies the name.
abbrev qualified : String → Option String → String
qualified user none = user
qualified user (some domain) = if domain == "" then user else format (domain ∷ "\\" ∷ user ∷ [])

unfoldable pub current_user : Environment → Outcome String
current_user env = elim env.username [
  | none ↦
      err
        (service creating "USERNAME is not set, so the account to register the task for is unknown")
  | some user ↦ ok (qualified user env.userdomain)
]

module _ {S : Type 0} (tools : Tools S) (env : Environment) where
  unfoldable pub create : FilePath → Job S (Unit {0})
  unfolding checked
  create definition =
      checked tools creating "schtasks"
        ("/Create" ∷ "/TN" ∷ task_name ∷ "/XML" ∷ display definition ∷ "/F" ∷ [])

  unfoldable pub register : String → FilePath → Job S Installation
  unfolding create transient_exe_note
  register exe definition = do
    create definition
    lift (
        ok (record {
          location = format (
              "scheduled task \""
              ∷ task_name
              ∷ "\", triggered at logon (defined by "
              ∷ display definition
              ∷ ")"
              ∷ []);
          notes = transient_exe_note env exe;
        }))

  unfoldable pub install_at : String → String → FilePath → Job S Installation
  unfolding register
  install_at exe user definition = do
    on_files
        (write_atomic env.registration definition (utf16le_with_bom (windows_task_xml exe user)))
    register exe definition

  unfoldable pub install : String → Job S Installation
  unfolding install_at daemon_exe current_user
  install config_dir = do
    exe ← lift (daemon_exe env)
    user ← lift (current_user env)
    install_at exe user (definition_at config_dir)

  unfoldable pub status : Job S ServiceStatus
  unfolding invoke parse_schtasks_status
  status = do
    output ← invoke tools querying "schtasks" query_args
    lift (ok (if output.success then parse_schtasks_status output.stdout else not_installed))

  unfoldable pub delete : Job S (Unit {0})
  unfolding checked
  delete = checked tools deleting "schtasks" delete_args

  abbrev pub unless_gone : ServiceStatus → Job S (Unit {0})
  unless_gone not_installed = lift (ok tt)
  unless_gone installed_stopped = delete
  unless_gone running = delete

  unfoldable pub uninstall : Job S (Unit {0})
  unfolding status delete
  uninstall = do found ← status; unless_gone found
