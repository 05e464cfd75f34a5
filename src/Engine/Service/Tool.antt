-- ===== src/Engine/Service/Tool.antt =====
-- `mod tool` of engine/crates/muxdeck-engine/src/service.rs: the tools of the system are run one after
-- the other. A tool is a parameter: it answers, and what is not a file of the program changes.
use muxdeck.Prelude.{
  String, ◌≡◌, refl, sym, ap, ◌∙◌, Bool, Option, none, some, List, [], ◌∷◌, if◌then◌else◌, Result,
  ok, err, map_err, ◌==◌, string_eq, inl, inr, Result-cases,
}
use muxdeck.Prelude.Text.{format, trim}
use muxdeck.Engine.Errors.{Outcome, service, io}
use muxdeck.Engine.Disk.{Fs, Attempt, FilePath, update, display}
use muxdeck.Engine.Service.Outputs.{is_transient_exe_path}

pub record Output : Type 0 where
  pub success : Bool
  pub exit : String
  pub stdout : String
  pub stderr : String

-- A tool that cannot be run gives the text of the error.
abbrev pub Tools : Type 0 → Type 0
Tools S = String → List String → S → Result Output String × S

-- The files, and the state that the tools change.
pub record Machine (S : Type 0) : Type 0 where
  pub files : Fs
  pub system : S

-- What the environment tells: the path of this process by its components and as it is shown, the
-- directory of temporary files, the user's directories and names, and what the system answers to the
-- calls that change files: a new directory, the file of the registration, the udev rule, a removal.
pub record Environment : Type 0 where
  pub current_exe : Result String String
  pub components : List String
  pub temp_dir : List String
  pub home_dir : Option String
  pub config_home : Option String
  pub username : Option String
  pub userdomain : Option String
  pub os : String
  pub directory_fault : Option String
  pub registration : Attempt
  pub rule : Attempt
  pub removal_fault : Option String

pub record Installation : Type 0 where
  pub location : String
  pub notes : List String

abbrev pub Job : Type 0 → Type 0 → Type 0
Job S A = Machine S → Outcome A × Machine S

module _ {S A B : Type 0} where
  infixl 5 ◌>>=◌
  abbrev pub ◌>>=◌ : Job S A → (A → Job S B) → Job S B
  ◌>>=◌ m f w = let (r, w') = m w in elim r [ ok a ↦ f a w' | err e ↦ (err e, w') ]

  -- Inversion of a successful `?`.
  pub job_ok :
      (m : Job S A) (f : A → Job S B) (w : Machine S) (b : B)
      → ((m >>= f) w).0 ≡ ok b
      → (a : A) × ((m w).0 ≡ ok a) × ((f a (m w).1).0 ≡ ok b) × ((m >>= f) w ≡ f a (m w).1)
  job_ok m f w b h = elim (Result-cases (m w).0) [
    | inl (a, e) ↦
        let step : (m >>= f) w ≡ f a (m w).1 = rw (e, ◌>>=◌) refl in
        (a, e, sym (ap (λ (x : Outcome B × Machine S). x.0) step) ∙ h, step)
    | inr (x, e) ↦
        let step : (m >>= f) w ≡ (err x, (m w).1) = rw (e, ◌>>=◌) refl in
        let no : ◌≡◌ {A = Outcome B} (err x) (ok b) =
          sym (ap (λ (x : Outcome B × Machine S). x.0) step) ∙ h in
        absurd (cc)
  ]

module _ {S A : Type 0} where
  infixl 5 ◌>>◌
  abbrev pub ◌>>◌ : Job S (Unit {0}) → Job S A → Job S A
  m >> k = m >>= λ _. k

  -- A result that depends on nothing that changes.
  abbrev pub lift : Outcome A → Job S A
  lift r w = (r, w)

  -- `let _ = …`
  abbrev pub ignore : Job S A → Job S (Unit {0})
  ignore m w = (ok tt, (m w).1)

-- An operation on the files.
abbrev pub on_files : {S : Type 0} → (Fs → Outcome (Unit {0}) × Fs) → Job S (Unit {0})
on_files f w = let (r, fs) = f w.files in (r, record w { files = fs })

unfoldable pub daemon_exe : Environment → Outcome String
daemon_exe p =
    map_err
      (λ e.
        service "locating the muxdeckd binary"
          (format ("could not read this process's own path: " ∷ e ∷ [])))
      p.current_exe

unfoldable pub transient_exe_note : Environment → String → List String
unfolding is_transient_exe_path
transient_exe_note p exe =
    if is_transient_exe_path p.temp_dir p.components
    then format (
        "Warning: registered " ∷ exe
        ∷ ", which is a build or temporary directory. The registration stores that exact path and will silently stop working once the directory is cleaned or moved. Re-run `muxdeckd service install` from the installed location."
        ∷ [])
      ∷ []
    else []

unfoldable pub invoke : {S : Type 0} → Tools S → String → String → List String → Job S Output
invoke tools context program args w =
    let (r, s) = tools program args w.system in
    (
      map_err (λ e. service context (format ("could not run " ∷ program ∷ ": " ∷ e ∷ []))) r,
      record w { system = s },
    )

unfoldable pub require_success : String → String → Output → Outcome (Unit {0})
unfolding trim
require_success context program output =
    let detail = if trim output.stderr == "" then trim output.stdout else trim output.stderr in
    if output.success
    then ok tt
    else err
        (service context (format (program ∷ " exited with " ∷ output.exit ∷ ": " ∷ detail ∷ [])))

-- `fs::create_dir_all`, with the error's context
unfoldable pub create_dir : {S : Type 0} → Environment → String → String → Job S (Unit {0})
create_dir env context parent w = elim env.directory_fault [
  | none ↦ (ok tt, w)
  | some e ↦ (err (io context parent e), w)
]

-- `fs::remove_file`, with the error's context
unfoldable pub remove_file : {S : Type 0} → Environment → String → FilePath → Job S (Unit {0})
remove_file env context path w = elim env.removal_fault [
  | some e ↦ (err (io context (display path) e), w)
  | none ↦ elim (w.files path) [
    | none ↦ (err (io context (display path) "No such file or directory"), w)
    | some bytes ↦ (ok tt, record w { files = update path none w.files })
  ]
]

-- A tool that has to succeed.
unfoldable pub checked : {S : Type 0} → Tools S → String → String → List String → Job S (Unit {0})
unfolding invoke require_success
checked tools context program args = do
  output ← invoke tools context program args
  lift (require_success context program output)
