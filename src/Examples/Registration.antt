-- ===== src/Examples/Registration.antt =====
-- Names with characters that XML reserves, and a text beyond the basic plane.
use Prim.Native.String.{◌++◌ as append}
use muxdeck.Prelude.{
  inl, inr, sym, ap, ◌∙◌, subst, ◌≡◌, refl, String, none, some, Bool, true, false, [], ◌∷◌, ◌==◌,
  string_eq, if◌then◌else◌, ok, err,
}
use muxdeck.Examples.Fixtures.{granted, no_files}
use muxdeck.Engine.Service.Outputs.{not_installed, HasRow}
use muxdeck.Engine.Service.Windows.{query_args}
use muxdeck.Prelude.Lines.{lines}
use muxdeck.Engine.Service.Tool.{Tools, Output, Machine, Environment}
use muxdeck.Engine.Service.Targets.{windows, install, uninstall, status}
use muxdeck.Engine.Service.Unregistered.{SchedulerLaw, Gone, status-uninstall}
use muxdeck.Engine.Service.Registered.{Registered, install-Registered}
use muxdeck.Prelude.Utf16.{codes}
use muxdeck.Engine.Service.Escape.{xml_escape, all_plain, is_plain, read_text, read_text-xml_escape}
use muxdeck.Engine.Service.Texts.{utf16le_with_bom}
use muxdeck.Engine.Service.Bytes.{read_utf16, read_utf16-utf16le_with_bom}

owner_path_plain : all_plain "/Users/Ben & Jerry's <Mac>" ≡ true
unfolding is_plain
owner_path_plain = refl

read_text-xml_escape_example :
    read_text none (append (xml_escape "/Users/Ben & Jerry's <Mac>") (append "<" "/string>"))
    ≡ some ("/Users/Ben & Jerry's <Mac>", append "<" "/string>")
read_text-xml_escape_example =
    read_text-xml_escape "/Users/Ben & Jerry's <Mac>" "/string>" owner_path_plain

read_utf16-utf16le_with_bom_example : read_utf16 (utf16le_with_bom "é𝄞") ≡ some (codes "é𝄞")
read_utf16-utf16le_with_bom_example = read_utf16-utf16le_with_bom "é𝄞"

-- A task scheduler: whether the task exists.
abbrev answer : Bool → String → Output
answer succeeds text = record {
  success = succeeds;
  exit = "exit code: 0";
  stdout = text;
  stderr = "";
}

abbrev row : String
row = "\r\n\"\\MuxDeck\",\"N/A\",\"Ready\"\r\n"

abbrev scheduler : Tools Bool
scheduler program [] s = (err "no command", s)
scheduler program (command ∷ args) s =
    if command == "/Create"
    then (ok (answer true ""), true)
    else if command == "/Delete"
    then (ok (answer s ""), false)
    else (ok (answer s row), s)

abbrev exists : Bool → Bool
exists s = s

row-HasRow : HasRow (lines row)
unfolding lines
row-HasRow = inr (inl refl)

scheduler_found :
    (s : Bool) (o : Output)
    → exists s ≡ true
    → (scheduler "schtasks" query_args s).0 ≡ ok o
    → (o.success ≡ true) × HasRow (lines o.stdout)
scheduler_found s o there h =
    let same : answer s row ≡ o = cc in
    (
      sym (ap (λ (x : Output). x.success) same) ∙ there,
      subst (λ (x : Output). HasRow (lines x.stdout)) same row-HasRow,
    )

abbrev scheduler_law : SchedulerLaw scheduler exists
scheduler_law = record {
  steady = λ s. refl;
  found = scheduler_found;
  missing = λ s gone. (answer s row, refl, gone);
  deletes = λ s o h done. refl;
}

abbrev environment : Environment
environment = record {
  current_exe = ok "/opt/muxdeckd";
  components = "/" ∷ "opt" ∷ "muxdeckd" ∷ [];
  temp_dir = "/" ∷ "tmp" ∷ [];
  home_dir = some "/home/ada";
  config_home = some "/home/ada/.config";
  username = some "ada";
  userdomain = none;
  os = "linux";
  directory_fault = none;
  registration = granted;
  rule = granted;
  removal_fault = none;
}

abbrev before : Machine Bool
before = record { files = no_files; system = true }

status-uninstall_example :
    Gone scheduler environment exists scheduler_law windows
      (uninstall scheduler environment windows before).1
    × ((status scheduler environment windows (uninstall scheduler environment windows before).1).0
        ≡ ok not_installed)
unfolding uninstall
status-uninstall_example =
    status-uninstall scheduler environment exists scheduler_law windows before refl

install-Registered_example :
    Registered windows environment "/home/ada/.config/muxdeck"
      (install scheduler environment windows "/home/ada/.config/muxdeck" before).1.files
unfolding install muxdeck.Engine.Disk.write_atomic
install-Registered_example =
    install-Registered scheduler environment windows "/home/ada/.config/muxdeck" _ before refl
