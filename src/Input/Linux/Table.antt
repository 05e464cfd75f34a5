-- ===== src/Input/Linux/Table.antt =====
-- The key table of Linux has no two keys on one code.
use muxdeck.Prelude.{◌≡◌, refl, true, some, map, nat_eq, arith}
use muxdeck.Prelude.Sets.{contains}
use muxdeck.Prelude.Sorting.{contains-append, contains-dedup-sort}
use muxdeck.Protocol.Keys
use muxdeck.Protocol.Keys.{Key}
use muxdeck.Protocol.Input
use muxdeck.Protocol.Input.{MediaCommand}
use muxdeck.Input.Lookup.{key_for, inj_of_key_for}
use muxdeck.Input.Linux.Keymap.{key_code, media_code, all_codes}

key_for-key_code : (k : Key) → key_for key_code (key_code k) ≡ some k
unfolding key_code
key_for-key_code Key.control = refl
key_for-key_code _ = refl

pub key_code_inj : (a b : Key) → key_code a ≡ key_code b → a ≡ b
key_code_inj = inj_of_key_for key_code key_for-key_code

key_codes-contains : (k : Key) → contains (key_code k) (map key_code Keys.all) ≡ true
unfolding key_code contains
key_codes-contains Key.control = refl
key_codes-contains _ = refl

media_codes-contains :
    (m : MediaCommand) → contains (media_code m) (map media_code Input.all_commands) ≡ true
unfolding media_code contains
media_codes-contains MediaCommand.mute = refl
media_codes-contains _ = refl

pub registered_key : (k : Key) → contains (key_code k) all_codes ≡ true
unfolding all_codes
registered_key k = rw (contains-dedup-sort, contains-append, key_codes-contains) refl

pub registered_media : (m : MediaCommand) → contains (media_code m) all_codes ≡ true
unfolding all_codes
registered_media m = rw (contains-dedup-sort, contains-append, media_codes-contains) (ground arith)
