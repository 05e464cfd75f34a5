-- ===== src/Engine/Actions.antt =====
-- Named shell actions: engine/crates/muxdeck-engine/src/actions.rs. A process that was started is an
-- entry of a list; what the system answers to the start is an argument.
pub mod Shell
use muxdeck.Prelude.{
  ℕ, String, Bool, Option, none, some, List, [], ◌∷◌, ◌==◌, string_eq, if◌then◌else◌, is_some,
  Result, ok, err, ◌>>=◌,
}
use muxdeck.Prelude.Text.{trim, format}
use muxdeck.Prelude.Map
use muxdeck.Prelude.Map.{Map}
use muxdeck.Protocol.Errors.{bad_request, not_found, injection_failed}
use muxdeck.Protocol.Actions.{Action}
use muxdeck.Engine.Errors.{EngineError, Outcome, wire}
use muxdeck.Engine.Disk.{FilePath, Fs, Attempt, Codec, write_json, read_json_or}

pub record ActionsFile : Type 0 where
  pub actions : Map Action

pub record ActionStore : Type 0 where
  pub path : FilePath
  pub file : ActionsFile
  pub open file use *

-- `ActionsFile::default`
abbrev pub no_actions : ActionsFile
no_actions = record { actions = [] }

unfoldable pub get : ActionStore → String → Option Action
get s id = Map.get id s.actions

unfoldable pub list : ActionStore → List Action
list s = Map.values s.actions

unfoldable pub validate : Action → Outcome (Unit {0})
validate a =
    if trim a.id == ""
    then err (wire bad_request "an action needs an id")
    else if trim a.command == ""
    then err (wire bad_request "an action needs a command to run")
    else ok tt

abbrev pub with_store :
    ActionStore → Outcome (Unit {0}) × Fs → Outcome (Unit {0}) × ActionStore × Fs
with_store s (r, fs) = (r, s, fs)

unfoldable pub with_action : Action → ActionStore → ActionStore
with_action a s = record s { file = record { actions = Map.insert a.id a s.actions } }

unfoldable pub without_action : String → ActionStore → ActionStore
without_action id s = record s { file = record { actions = Map.remove id s.actions } }

module _ (codec : Codec ActionsFile) where
  unfoldable pub load : Option String → FilePath → Fs → Outcome ActionStore
  load fault path fs = do
    file ← read_json_or codec fault path "reading actions.json" no_actions fs
    ok (record { path = path; file = file })

  unfoldable pub persist : Attempt → ActionStore → Fs → Outcome (Unit {0}) × Fs
  persist attempt s fs = write_json codec attempt s.path s.file fs

  unfoldable pub set : Action → Attempt → ActionStore → Fs → Outcome (Unit {0}) × ActionStore × Fs
  unfolding validate with_action persist
  set a attempt s fs = elim (validate a) [
    | err e ↦ (err e, s, fs)
    | ok _ ↦ let s' = with_action a s in with_store s' (persist attempt s' fs)
  ]

  unfoldable pub delete :
      String → Attempt → ActionStore → Fs → Outcome (Unit {0}) × ActionStore × Fs
  unfolding without_action persist
  delete id attempt s fs =
      let s' = without_action id s in
      if is_some (Map.get id s.actions)
      then with_store s' (persist attempt s' fs)
      else (err (wire not_found "no such action"), s', fs)

-- What goes to the system's process interface: no shell stands in between.
pub record Command : Type 0 where
  pub program : String
  pub args : List String
  pub current_dir : Option String

abbrev pub command_of : Action → Command
command_of a = record { program = a.command; args = a.args; current_dir = a.cwd }

-- `spawn`: the child is not awaited, so its end is not part of the result.
unfoldable pub spawn :
    (Command → Result (Unit {0}) String) → Action → List Command → Outcome (Unit {0}) × List Command
spawn system a started = elim (system (command_of a)) [
  | ok _ ↦ (ok tt, command_of a ∷ started)
  | err error ↦ (
    err (
        wire injection_failed (
          format (
            "could not run '" ∷ a.command ∷ "': " ∷ error
            ∷ ". Check the command exists and is on PATH." ∷ []))),
    started,
  )
]
