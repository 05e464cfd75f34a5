-- ===== src/Engine/Disk.antt =====
-- Files and the atomic write: `write_atomic`, `read_json_or`, `write_json` of
-- engine/crates/muxdeck-engine/src/config.rs. What the operating system answers to each call, and
-- the JSON codec, are arguments.
pub mod Atomic
pub mod Json
use muxdeck.Prelude.{
  ℕ, String, ◌≡◌, ◌↔◌, Bool, true, ◌&&◌, Option, none, some, List, [], ◌∷◌, arith, eq_iff,
  PartialEq, ◌==◌, string_eq, if◌then◌else◌, Result, ok, err,
}
use muxdeck.Prelude.Text.{format}
use muxdeck.Engine.Errors.{EngineError, Outcome, io, json}

pub record FilePath : Type 0 where
  pub parent : String
  pub stem : String
  pub extension : String

abbrev pub same_path : FilePath → FilePath → Bool
same_path p q = p.parent == q.parent && p.stem == q.stem && p.extension == q.extension

pub same_path_iff : (p q : FilePath) → (same_path p q ≡ true) ↔ (p ≡ q)
same_path_iff p q =
    ground (arith, eq_iff p.parent q.parent, eq_iff p.stem q.stem, eq_iff p.extension q.extension)

instance abbrev pub path_eq : PartialEq FilePath
path_eq = record { eq = same_path; decides = same_path_iff }

-- `Path::with_extension`
abbrev pub with_extension : FilePath → String → FilePath
with_extension p e = record p { extension = e }

pub display : FilePath → String
display p = format (p.parent ∷ "/" ∷ p.stem ∷ "." ∷ p.extension ∷ [])

abbrev pub Fs : Type 0
Fs = FilePath → Option (List ℕ)

abbrev pub update : FilePath → Option (List ℕ) → Fs → Fs
update p content fs q = if p == q then content else fs q

-- A write that fails leaves anything at its path: nothing, or some of the bytes.
pub record WriteFault : Type 0 where
  pub error : String
  pub left : Option (List ℕ)

-- What the system answers to the write and to the rename of one attempt.
pub record Attempt : Type 0 where
  pub write_fault : Option WriteFault
  pub rename_fault : Option String

unfoldable pub fs_write : Option WriteFault → FilePath → List ℕ → Fs → Result (Unit {0}) String × Fs
fs_write none path bytes fs = (ok tt, update path (some bytes) fs)
fs_write (some fault) path bytes fs = (err fault.error, update path fault.left fs)

move_file : Option (List ℕ) → FilePath → FilePath → Fs → Result (Unit {0}) String × Fs
move_file none from to fs = (err "No such file or directory", fs)
move_file (some bytes) from to fs = (ok tt, update to (some bytes) (update from none fs))

unfoldable pub fs_rename : Option String → FilePath → FilePath → Fs → Result (Unit {0}) String × Fs
unfolding move_file
fs_rename none from to fs = move_file (fs from) from to fs
fs_rename (some error) from to fs = (err error, fs)

-- The error of the rename, with its context.
installed : FilePath → Result (Unit {0}) String × Fs → Outcome (Unit {0}) × Fs
unfolding display
installed path (ok _, fs) = (ok tt, fs)
installed path (err e, fs) = (err (io "installing" (display path) e), fs)

install : Attempt → FilePath → FilePath → Result (Unit {0}) String × Fs → Outcome (Unit {0}) × Fs
unfolding display installed
install attempt tmp path (err e, fs) = (err (io "writing" (display tmp) e), fs)
install attempt tmp path (ok _, fs) = installed path (fs_rename attempt.rename_fault tmp path fs)

unfoldable pub write_atomic : Attempt → FilePath → List ℕ → Fs → Outcome (Unit {0}) × Fs
unfolding install fs_write fs_rename
write_atomic attempt path bytes fs =
    let tmp = with_extension path "tmp" in
    install attempt tmp path (fs_write attempt.write_fault tmp bytes fs)

-- `serde_json` at one type.
pub record Codec (T : Type 0) : Type 0 where
  pub to_vec_pretty : T → Result (List ℕ) String
  pub from_slice : List ℕ → Result T String

pub record CodecLaw {T : Type 0} (codec : Codec T) : Type 0 where
  pub from-to :
      (value : T) (bytes : List ℕ)
      → codec.to_vec_pretty value ≡ ok bytes
      → codec.from_slice bytes ≡ ok value

module _ {T : Type 0} (codec : Codec T) where
  unfoldable pub write_json : Attempt → FilePath → T → Fs → Outcome (Unit {0}) × Fs
  unfolding display
  write_json attempt path value fs = elim (codec.to_vec_pretty value) [
    | err e ↦ (err (json "serialising" (display path) e), fs)
    | ok bytes ↦ write_atomic attempt path bytes fs
  ]

  parse_json : FilePath → String → List ℕ → Outcome T
  unfolding display
  parse_json path context bytes = elim (codec.from_slice bytes) [
    | err e ↦ err (json context (display path) e)
    | ok value ↦ ok value
  ]

  -- A missing file gives the default; a read may also be refused.
  unfoldable pub read_json_or : Option String → FilePath → String → T → Fs → Outcome T
  unfolding parse_json display
  read_json_or (some e) path context default fs = err (io context (display path) e)
  read_json_or none path context default fs = elim (fs path) [
    | none ↦ ok default
    | some bytes ↦ parse_json path context bytes
  ]
