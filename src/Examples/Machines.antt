-- ===== src/Examples/Machines.antt =====
-- A host's name with dots, a sampler, and a secret whose permissions cannot be set.
use muxdeck.Prelude.{◌≡◌, refl, false, true, none, some, [], ◌∷◌, string_eq, if◌then◌else◌, is_ok}
use muxdeck.Engine.Discovery.{sanitise}
use muxdeck.Engine.Telemetry.{run, repeat}
use muxdeck.Engine.Secrets.{SecretFs, SecretAttempt, write_secret, write_secret_lem}
use muxdeck.Examples.Fixtures.{devices_path, json_ne_tmp}
use muxdeck.Examples.Files.{settings}
use muxdeck.Protocol.Settings.{Settings}

renamed_host : sanitise " my.host " ≡ "my-host"
unfolding sanitise
renamed_host = refl

-- An interval of 300 milliseconds.
abbrev short : Settings
short = record settings { telemetry_interval_ms = 300 }

every_second_turn :
    run (repeat 5 (short, true) []) 0 ≡ (200, false ∷ true ∷ false ∷ true ∷ false ∷ [])
unfolding run repeat
every_second_turn = refl

abbrev no_secrets : SecretFs
no_secrets p = none

-- The permissions cannot be set.
abbrev loose : SecretAttempt
loose = record {
  write_fault = none;
  restrict_fault = some "not supported";
  remove_fault = none;
  rename_fault = none;
}

write_secret_lem_example :
    let (r, fs') = write_secret loose devices_path (1 ∷ 2 ∷ []) no_secrets in
    fs' devices_path ≡ (
      if is_ok r
      then some (record { bytes = 1 ∷ 2 ∷ []; owner_only = true })
      else no_secrets devices_path)
write_secret_lem_example = write_secret_lem loose devices_path (1 ∷ 2 ∷ []) no_secrets json_ne_tmp
