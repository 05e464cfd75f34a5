-- ===== src/Engine/Secrets.antt =====
-- Files that only their owner may read: `write_secret` and `read_secret` of
-- engine/crates/muxdeck-engine/src/secret_file.rs. What the system answers to each call is an argument.
use muxdeck.Prelude.{
  ℕ, String, ◌≡◌, ◌≢◌, refl, sym, ap, Bool, true, false, Option, none, some, List, [], ◌∷◌, ◌==◌,
  if◌then◌else◌, Result, ok, err, arith, Bool-cases, inl, inr, is_ok,
}
use muxdeck.Prelude.Text.{format, trim}
use muxdeck.Engine.Errors.{Outcome, io, permissions}
use muxdeck.Engine.Disk.{FilePath, path_eq, same_path_iff, with_extension, display}

-- A file's content, and whether only its owner may read it.
pub record Entry : Type 0 where
  pub bytes : List ℕ
  pub owner_only : Bool

abbrev pub SecretFs : Type 0
SecretFs = FilePath → Option Entry

abbrev pub put : FilePath → Option Entry → SecretFs → SecretFs
put path entry fs q = if path == q then entry else fs q

-- What the system answers; a write that fails leaves anything at its path.
pub record SecretAttempt : Type 0 where
  pub write_fault : Option (String × Option Entry)
  pub restrict_fault : Option String
  pub remove_fault : Option String
  pub rename_fault : Option String

-- A file that is there keeps its permissions when it is written again.
abbrev mode_of : Option Entry → Bool
mode_of none = false
mode_of (some entry) = entry.owner_only

move_entry : FilePath → FilePath → Option Entry → SecretFs → Outcome (Unit {0}) × SecretFs
move_entry from to none fs =
    (err (io "installing secret file" (display to) "No such file or directory"), fs)
move_entry from to (some entry) fs = (ok tt, put to (some entry) (put from none fs))

-- The temporary file once its permissions have been set.
restrict : FilePath → SecretFs → SecretFs
restrict path fs = elim (fs path) [
  | none ↦ fs
  | some entry ↦ put path (some (record entry { owner_only = true })) fs
]

unfoldable pub install_secret :
    SecretAttempt → FilePath → FilePath → SecretFs → Outcome (Unit {0}) × SecretFs
unfolding move_entry restrict
install_secret attempt tmp path fs = elim attempt.restrict_fault [
  | some detail ↦ (
    err (permissions (display tmp) detail),
    elim attempt.remove_fault [ none ↦ put tmp none fs | some e ↦ fs ],
  )
  | none ↦ elim attempt.rename_fault [
    | some e ↦ (err (io "installing secret file" (display path) e), restrict tmp fs)
    | none ↦ move_entry tmp path (restrict tmp fs tmp) (restrict tmp fs)
  ]
]

unfoldable pub write_secret :
    SecretAttempt → FilePath → List ℕ → SecretFs → Outcome (Unit {0}) × SecretFs
unfolding install_secret
write_secret attempt path bytes fs =
    let tmp = with_extension path "tmp" in
    elim attempt.write_fault [
      | some (e, left) ↦ (err (io "writing secret file" (display tmp) e), put tmp left fs)
      | none ↦
          install_secret attempt tmp path
            (put tmp (some (record { bytes = bytes; owner_only = mode_of (fs tmp) })) fs)
    ]

unfoldable pub read_secret : Option String → FilePath → SecretFs → Outcome (List ℕ)
read_secret (some e) path fs = err (io "reading secret file" (display path) e)
read_secret none path fs = elim (fs path) [
  | none ↦ err (io "reading secret file" (display path) "No such file or directory")
  | some entry ↦ ok entry.bytes
]

-- What `icacls` and the environment answer on Windows, as the detail of the error.
unfoldable pub icacls_fault : Option String → Result (Bool × String × String) String → Option String
unfolding trim
icacls_fault none answer = some "USERNAME is not set, so the account to grant access to is unknown"
icacls_fault (some user) (err e) = some (format ("could not run icacls: " ∷ e ∷ []))
icacls_fault (some user) (ok (success, status, stderr)) =
    if success
    then none
    else some (format ("icacls exited with " ∷ status ∷ ": " ∷ trim stderr ∷ []))

module _ (attempt : SecretAttempt) (path : FilePath) (bytes : List ℕ) (fs : SecretFs)
    (plain : path.extension ≢ "tmp") where
  abbrev tmp : FilePath
  tmp = with_extension path "tmp"

  apart : (tmp == path) ≡ false
  apart = elim (Bool-cases (tmp == path)) [
    | inl e ↦
        absurd (plain (sym (ap (λ (p : FilePath). p.extension) ((same_path_iff tmp path).0 e))))
    | inr e ↦ e
  ]

  -- Whatever the system answers, a secret that is written stands at its path readable by its owner
  -- alone, and one that is refused leaves at that path what was there, if the extension is not tmp.
  pub write_secret_lem :
      let (r, fs') = write_secret attempt path bytes fs in
      fs' path ≡ (if is_ok r then some (record { bytes = bytes; owner_only = true }) else fs path)
  unfolding write_secret
  write_secret_lem =
      ground (arith, apart, (same_path_iff path path).1 refl, (same_path_iff tmp tmp).1 refl)
