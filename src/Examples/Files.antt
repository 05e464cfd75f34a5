-- ===== src/Examples/Files.antt =====
-- Files that are written and read back, and settings that are changed.
use muxdeck.Prelude.{
  ℕ, String, ◌≡◌, ◌≢◌, refl, Bool, true, false, not, ◌&&◌, Option, none, some, List, [], ◌∷◌, ap,
  ◌==◌, nat_eq, string_eq, if◌then◌else◌, Result, ok, err, is_ok, arith, eq_iff, ◌↔◌, ◌⊎◌,
}
use muxdeck.Protocol.Settings.{Settings, SettingsPatch}
use muxdeck.Protocol.Actions.{Action}
use muxdeck.Engine.Errors.{EngineError}
use muxdeck.Engine.Disk.{
  FilePath, Attempt, Codec, with_extension, write_atomic, write_json, read_json_or,
}
use muxdeck.Engine.Disk.Atomic.{write_atomic_content}
use muxdeck.Engine.Disk.Json.{read-write_json}
use muxdeck.Engine.Actions
use muxdeck.Engine.Actions.{ActionStore, ActionsFile, Command, command_of, no_actions}
use muxdeck.Engine.Actions.Shell.{Call, set_call, delete_call}
use muxdeck.Engine.Host.{Engine, Machine, Answers, apply_settings, run_action}
use muxdeck.Engine.Host.Settled.{Settled, apply_settings-Settled, run_action_iff}
use muxdeck.Examples.Fixtures.{
  identity, empty_registry, no_files, granted, devices_path, json_ne_tmp, Only, only_codec,
  only_law,
}

-- The rename of this attempt is refused.
abbrev half_done : Attempt
half_done = record { write_fault = none; rename_fault = some "Permission denied" }

write_atomic_content_example :
    let (r, fs') = write_atomic half_done devices_path (1 ∷ 2 ∷ []) no_files in
    fs' devices_path ≡ (if is_ok r then some (1 ∷ 2 ∷ []) else no_files devices_path)
write_atomic_content_example =
    write_atomic_content half_done devices_path (1 ∷ 2 ∷ []) no_files json_ne_tmp

abbrev other_path : FilePath
other_path = record devices_path { stem = "settings" }

other_ne_path : other_path ≢ devices_path
other_ne_path e = let same = (eq_iff "settings" "devices").1 (ap (λ (p : FilePath). p.stem) e) in cc

other_ne_tmp : other_path ≢ with_extension devices_path "tmp"
other_ne_tmp e = let same = (eq_iff "settings" "devices").1 (ap (λ (p : FilePath). p.stem) e) in cc

-- A codec of numbers.
abbrev numbers : Codec ℕ
numbers = record {
  to_vec_pretty = λ n. ok (n ∷ []);
  from_slice = λ bytes. elim bytes [ [] ↦ err "EOF" | n ∷ rest ↦ ok n ];
}

read-write_json_example :
    let (r, fs') = write_json numbers granted devices_path 5 no_files in
    read_json_or numbers none devices_path "reading" 0 fs'
    ≡ (if is_ok r then ok 5 else read_json_or numbers none devices_path "reading" 0 no_files)
read-write_json_example =
    read-write_json numbers (record { from-to = λ n bytes h. ground arith }) granted devices_path
      "reading" 5 0 no_files json_ne_tmp

abbrev pub settings : Settings
settings = record {
  port = 47654;
  host_name = "desk";
  shell_actions_enabled = false;
  telemetry_enabled = true;
  telemetry_interval_ms = 1000;
  autostart = true;
}

abbrev renamed : Settings
renamed = record settings { host_name = "studio"; shell_actions_enabled = true; autostart = false }

abbrev patch : SettingsPatch
patch = record {
  port = none;
  host_name = some "studio";
  shell_actions_enabled = some true;
  telemetry_enabled = none;
  telemetry_interval_ms = none;
  autostart = some false;
}

is_renamed : Settings → Bool
is_renamed s =
    s.port == 47654
    && s.host_name == "studio"
    && s.shell_actions_enabled
    && s.telemetry_enabled
    && s.telemetry_interval_ms == 1000
    && not s.autostart

is_renamed_lem : (s : Settings) → is_renamed s ≡ true → s ≡ renamed
unfolding is_renamed
is_renamed_lem s h = ground (arith, eq_iff s.host_name "studio")

only_renamed : Only renamed
only_renamed = record { is_it = is_renamed; is_it_lem = is_renamed_lem }

abbrev echo : Action
echo = record {
  id = "a_one";
  name = "Echo";
  command = "echo";
  args = "; rm -rf ~" ∷ [];
  cwd = none;
}

abbrev pub action_store : ActionStore
action_store = record { path = devices_path; file = record { actions = ("a_one", echo) ∷ [] } }

abbrev pub engine_with : Settings → Engine
engine_with s = record {
  settings_path = other_path;
  identity = identity;
  settings = s;
  registry = empty_registry;
  pairing = none;
  connected = [];
  port = 47654;
  actions = action_store;
  advertisement = none;
}

abbrev pub machine : Machine
machine = record { files = no_files; starts_at_login = true; started = [] }

abbrev pub answers : Answers
answers = record { service = λ install. ok tt; attempt = granted; advertise = ok tt }

apply_settings-Settled_example :
    Settled
      (only_codec renamed only_renamed)
      (only_law renamed only_renamed)
      answers
      "reading"
      settings
      patch
      (engine_with settings)
      machine
      (apply_settings
        (only_codec renamed only_renamed)
        answers
        patch
        (engine_with settings)
        machine)
apply_settings-Settled_example =
    apply_settings-Settled (only_codec renamed only_renamed) (only_law renamed only_renamed) answers
      "reading" settings patch (engine_with settings) machine json_ne_tmp

settings_are_renamed :
    (apply_settings
      (only_codec renamed only_renamed)
      answers
      patch
      (engine_with settings)
      machine).0
    ≡ ok renamed
unfolding apply_settings write_json only_codec only_renamed is_renamed write_atomic
settings_are_renamed = refl

abbrev system : Command → Result (Unit {0}) String
system command = ok tt

abbrev ran : Machine
ran = record machine { started = command_of echo ∷ [] }

run_action_iff_example :
    ((run_action system "a_one" (engine_with renamed) machine ≡ (ok tt, ran)) ↔ (
      (renamed.shell_actions_enabled ≡ true)
      × ((a : Action) × (Actions.get action_store "a_one" ≡ some a)
          × (system (command_of a) ≡ ok tt)
          × (ran ≡ record machine { started = command_of a ∷ machine.started }))))
    × (((run_action system "a_one" (engine_with renamed) machine).0 ≡ ok tt)
        ⊎ ((e : EngineError) × (run_action system "a_one" (engine_with renamed) machine
              ≡ (err e, machine))))
run_action_iff_example = run_action_iff system "a_one" (engine_with renamed) machine ran

echo_ran : run_action system "a_one" (engine_with renamed) machine ≡ (ok tt, ran)
unfolding run_action muxdeck.Prelude.Map.get
echo_ran = refl

abbrev only_none : Codec ActionsFile
only_none = record { to_vec_pretty = λ f. ok []; from_slice = λ bytes. ok no_actions }

abbrev action_calls : List Call
action_calls =
    set_call echo granted
    ∷ set_call (record echo { command = "  " }) granted
    ∷ delete_call "a_two" half_done
    ∷ []
