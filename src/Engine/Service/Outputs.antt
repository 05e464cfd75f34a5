-- ===== src/Engine/Service/Outputs.antt =====
-- What the tools of the system print: `ServiceStatus`, `parse_schtasks_status`,
-- `launchctl_reports_a_pid`, `systemctl_reports_active` and `is_transient_exe_path` of
-- engine/crates/muxdeck-engine/src/service.rs.
use Prim.Native.Char.{Char, code}
use Prim.Native.String.{char_at}
use Prim.Native.Nat.{ℕ, compare, eq}
use text.Mathlib.TextEquality.{codes_equal}
use muxdeck.Prelude.{
  arith, subst, sym, eq_iff, Bool-cases, inl, inr, ◌⊎◌, ◌≢◌, nat_eq, String, ◌≡◌, refl, Bool, true,
  false, ◌&&◌, ◌||◌, List, [], ◌∷◌, ◌==◌, string_eq, if◌then◌else◌,
}
use muxdeck.Prelude.Text.{trim, trim_start, trim_end}
use muxdeck.Prelude.Lines.{lines, last_piece, trim_matches, starts_with, eq_ignore_ascii_case}

pub data ServiceStatus : Type 0 where
  not_installed installed_stopped running : ServiceStatus

unfoldable pub as_str : ServiceStatus → String
as_str not_installed = "not installed"
as_str installed_stopped = "installed, not running"
as_str running = "installed and running"

-- The state is in the last column of the first line that is not blank.
abbrev status_of_lines : List String → ServiceStatus
status_of_lines [] = not_installed
status_of_lines (l ∷ ls) =
    let line = trim l in
    let later = status_of_lines ls in
    let state = trim_matches b'"' (trim (last_piece b',' line)) in
    if line == ""
    then later
    else if eq_ignore_ascii_case state "running"
    then running
    else installed_stopped

unfoldable pub parse_schtasks_status : String → ServiceStatus
unfolding trim lines last_piece trim_matches eq_ignore_ascii_case
parse_schtasks_status csv = status_of_lines (lines csv)

-- A line that starts with a double quote, as each row of the table does.
abbrev pub IsRow : String → Type 0
IsRow String.[] = ⊥
IsRow (String.◌∷◌ c s) = code c ≡ b'"'

abbrev pub HasRow : List String → Type 0
HasRow [] = ⊥
HasRow (l ∷ ls) = IsRow l ⊎ HasRow ls

cons_ne_empty : (c : Char) (s : String) → (String.◌∷◌ c s == "") ≡ false
cons_ne_empty c s = elim (Bool-cases (String.◌∷◌ c s == "")) [
  | inr e ↦ e
  | inl e ↦ absurd (let same = (eq_iff (String.◌∷◌ c s) "").0 e in cc)
]

abbrev quote : Char
quote = char_at "\"" 0

trim-quoted : (s : String) → (trim (String.◌∷◌ quote s) == "") ≡ false
unfolding trim trim_start trim_end
trim-quoted s = elim (Bool-cases (trim_end s == "")) [
  | inl e ↦ rw e (cons_ne_empty quote (trim_end s))
  | inr e ↦ rw e (cons_ne_empty quote (trim_end s))
]

same_code : (n : ℕ) → n ≡ b'"' → compare n b'"' ≡ eq
same_code n h = ground arith

trim-row : (line : String) → IsRow line → (trim line == "") ≡ false
trim-row String.[] h = absurd h
trim-row (String.◌∷◌ c s) h =
    subst (λ d. (trim (String.◌∷◌ d s) == "") ≡ false)
      (sym (codes_equal c quote (same_code (code c) h))) (trim-quoted s)

status_of_row :
    (line : String) (ls : List String)
    → (trim line == "") ≡ false
    → status_of_lines (line ∷ ls) ≢ not_installed
status_of_row line ls h =
    elim (Bool-cases
      (eq_ignore_ascii_case (trim_matches b'"' (trim (last_piece b',' (trim line)))) "running")) [
        | inl e ↦ rw (h, e) (λ same. absurd (cc))
        | inr e ↦ rw (h, e) (λ same. absurd (cc))
      ]

status_of_rows : (ls : List String) → HasRow ls → status_of_lines ls ≢ not_installed
status_of_rows [] h = absurd h
status_of_rows (line ∷ ls) (inl row) = status_of_row line ls (trim-row line row)
status_of_rows (line ∷ ls) (inr row) = elim (Bool-cases (trim line == "")) [
  | inl e ↦ rw e (status_of_rows ls row)
  | inr e ↦ status_of_row line ls e
]

-- A table with a row tells of a task.
pub parse_schtasks_status_row :
    (csv : String) → HasRow (lines csv) → parse_schtasks_status csv ≢ not_installed
unfolding parse_schtasks_status
parse_schtasks_status_row csv h = status_of_rows (lines csv) h

abbrev any_pid : List String → Bool
any_pid [] = false
any_pid (line ∷ rest) = starts_with "\"PID\"" (trim_start line) || any_pid rest

unfoldable pub launchctl_reports_a_pid : String → Bool
unfolding lines starts_with trim_start
launchctl_reports_a_pid list_output = any_pid (lines list_output)

unfoldable pub systemctl_reports_active : String → Bool
unfolding trim
systemctl_reports_active is_active_output = trim is_active_output == "active"

-- `Path::starts_with` on the components of two paths, the prefix first.
abbrev is_below : List String → List String → Bool
is_below [] path = true
is_below (d ∷ ds) [] = false
is_below (d ∷ ds) (c ∷ cs) = d == c && is_below ds cs

abbrev has_build_pair : List String → Bool
has_build_pair [] = false
has_build_pair (a ∷ []) = false
has_build_pair (a ∷ b ∷ rest) =
    (eq_ignore_ascii_case a "target"
      && (eq_ignore_ascii_case b "debug" || eq_ignore_ascii_case b "release"))
    || has_build_pair (b ∷ rest)

-- The directory of temporary files, and the path, by their components.
unfoldable pub is_transient_exe_path : List String → List String → Bool
unfolding eq_ignore_ascii_case
is_transient_exe_path temp_dir exe = is_below temp_dir exe || has_build_pair exe

status_ready : parse_schtasks_status "\r\n\"\\MuxDeck\",\"N/A\",\"Ready\"\r\n" ≡ installed_stopped
unfolding parse_schtasks_status
status_ready = refl

status_running : parse_schtasks_status "\"\\MuxDeck\",\"N/A\",\"Running\"\r\n" ≡ running
unfolding parse_schtasks_status
status_running = refl

status_activating : systemctl_reports_active "activating\n" ≡ false
unfolding systemctl_reports_active
status_activating = refl

pid_line : launchctl_reports_a_pid "{\n\t\"PID\" = 812;\n};\n" ≡ true
unfolding launchctl_reports_a_pid
pid_line = refl

transient_build :
    is_transient_exe_path ("/" ∷ "tmp" ∷ []) ("/" ∷ "home" ∷ "Target" ∷ "release" ∷ "muxdeckd" ∷ [])
    ≡ true
unfolding is_transient_exe_path
transient_build = refl
