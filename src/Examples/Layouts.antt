-- ===== src/Examples/Layouts.antt =====
-- Layouts that are accepted, refused, stored and deleted.
use muxdeck.Prelude.{
  ℕ, String, ◌≡◌, ◌↔◌, refl, Bool, true, false, Option, none, some, List, [], ◌∷◌, Result, ok, err,
  is_ok,
}
use muxdeck.Protocol.KnownOps.{pair_begin}
use muxdeck.Protocol.Ops.{known_op}
use muxdeck.Protocol.Session.{Role}
use muxdeck.Protocol.Profiles.{Profile, ButtonAction, light}
use muxdeck.Engine.Disk.{Codec}
use muxdeck.Engine.Session.{Session, ready_as}
use muxdeck.Engine.Dispatch.{authorize}
use muxdeck.Engine.Store.{Store, StoreFile, active, active_id, get}
use muxdeck.Engine.Store.Check.{validate}
use muxdeck.Engine.Store.Rules.{IsWellFormed, validate_iff}
use muxdeck.Engine.Store.Default.{default_file}
use muxdeck.Engine.Store.Pointer.{
  IsValid, Call, set_call, delete_call, activate_call, run, run-default, active_lem,
  default-IsValid,
}
use muxdeck.Examples.Fixtures.{no_files, granted, devices_path, remote, some_id}

-- The raw values of these layouts are lists of key names.
abbrev Value : Type 0
Value = List String

abbrev json_keys : List String → Value
json_keys keys = keys

abbrev codec : Codec (StoreFile Value)
codec = record { to_vec_pretty = λ f. ok []; from_slice = λ bytes. ok (default_file json_keys) }

-- A button by which a deck would open a pairing window.
abbrev sneaky : ButtonAction Value
sneaky = record { op = known_op pair_begin; d = [] }

abbrev other : Profile Value
other = record {
  id = "p_other";
  name = "Other";
  grid = record { cols = 2; rows = 1 };
  pages =
      record {
        id = "pg_1";
        name = "Main";
        buttons =
            record {
              id = "b_1";
              pos = record { col = 0; row = 0 };
              label = "Pair";
              icon = "circle";
              color = "#000000";
              haptic = light;
              on_tap = some sneaky;
              on_long_press = none;
            }
            ∷ [];
      }
      ∷ [];
}

validate_iff_example : (validate other Role.admin ≡ ok tt) ↔ IsWellFormed Role.admin other
validate_iff_example = validate_iff other Role.admin

other_valid : validate other Role.admin ≡ ok tt
unfolding validate muxdeck.Prelude.Sets.contains muxdeck.Protocol.Ops.known
    muxdeck.Engine.Dispatch.access_for
other_valid = refl

other_not_for_decks : is_ok (validate other Role.deck) ≡ false
unfolding validate muxdeck.Prelude.Sets.contains muxdeck.Protocol.Ops.known
    muxdeck.Engine.Dispatch.access_for
other_not_for_decks = refl

abbrev deck_session : Session
deck_session = record {
  peer = remote;
  state = ready_as Role.deck (some some_id);
  profile_subscribed = false;
  telemetry_subscribed = false;
}

abbrev fresh : Store Value
fresh = record { path = devices_path; file = default_file json_keys }

abbrev calls : List (Call Value)
calls =
    set_call other Role.admin granted
    ∷ activate_call "p_other" granted
    ∷ delete_call "p_other" granted
    ∷ delete_call "p_default" granted
    ∷ []

run-default_example : IsValid (run codec calls (fresh, no_files)).0
run-default_example = run-default codec json_keys devices_path calls no_files

still_active : active_id (run codec calls (fresh, no_files)).0 ≡ "p_default"
unfolding active_id muxdeck.Prelude.Map.get run muxdeck.Engine.Store.Pointer.perform
    muxdeck.Engine.Store.delete muxdeck.Engine.Store.activate muxdeck.Engine.Store.set validate
    muxdeck.Prelude.Sets.contains muxdeck.Protocol.Ops.known muxdeck.Engine.Dispatch.access_for
    muxdeck.Prelude.Map.insert muxdeck.Prelude.Map.remove
still_active = refl
