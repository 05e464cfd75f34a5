-- ===== src/Engine/Store/Default.antt =====
-- The layout a fresh install starts with: `default_profile` and `StoreFile::default` of
-- engine/crates/muxdeck-engine/src/store.rs. `json_keys` is the `json!` object with the keys.
use muxdeck.Prelude.{ℕ, String, ◌≡◌, refl, none, some, List, [], ◌∷◌, ok}
use muxdeck.Prelude.Sets.{contains}
use muxdeck.Protocol.KnownOps.{input_key_combo}
use muxdeck.Protocol.Ops.{known_op, known}
use muxdeck.Protocol.Session.{Role}
use muxdeck.Protocol.Profiles.{Profile, Button, light}
use muxdeck.Engine.Dispatch.{access_for}
use muxdeck.Engine.Store.{StoreFile, default_profile_id}
use muxdeck.Engine.Store.Check.{validate, check_pages, check_buttons, check_button, check_action}

abbrev blue : String
blue = "#2D6CDF"

abbrev purple : String
purple = "#6B4FBB"

abbrev green : String
green = "#1F8A70"

abbrev red : String
red = "#B3422F"

abbrev grey : String
grey = "#4A5568"

module _ {Value : Type 0} (json_keys : List String → Value) where
  -- The inner function `key`.
  abbrev key : String → ℕ → ℕ → String → String → String → List String → Button Value
  key id col row label icon colour keys = record {
    id = id;
    pos = record { col = col; row = row };
    label = label;
    icon = icon;
    color = colour;
    haptic = light;
    on_tap = some (record { op = known_op input_key_combo; d = json_keys keys });
    on_long_press = none;
  }

  abbrev main_buttons : List (Button Value)
  main_buttons =
      key "b_copy" 0 0 "Copy" "content_copy" blue ("CONTROL" ∷ "C" ∷ [])
      ∷ key "b_paste" 1 0 "Paste" "content_paste" blue ("CONTROL" ∷ "V" ∷ [])
      ∷ key "b_cut" 2 0 "Cut" "content_cut" blue ("CONTROL" ∷ "X" ∷ [])
      ∷ key "b_undo" 3 0 "Undo" "undo" blue ("CONTROL" ∷ "Z" ∷ [])
      ∷ key "b_redo" 4 0 "Redo" "redo" blue ("CONTROL" ∷ "Y" ∷ [])
      ∷ key "b_all" 0 1 "Select all" "select_all" purple ("CONTROL" ∷ "A" ∷ [])
      ∷ key "b_save" 1 1 "Save" "save" purple ("CONTROL" ∷ "S" ∷ [])
      ∷ key "b_find" 2 1 "Find" "search" purple ("CONTROL" ∷ "F" ∷ [])
      ∷ key "b_switch" 3 1 "Switch app" "swap_horiz" purple ("ALT" ∷ "TAB" ∷ [])
      ∷ key "b_desktop" 4 1 "Desktop" "desktop_windows" purple ("META" ∷ "D" ∷ [])
      ∷ key "b_shot" 0 2 "Screenshot" "photo_camera" green ("META" ∷ "SHIFT" ∷ "S" ∷ [])
      ∷ key "b_lock" 1 2 "Lock" "lock" green ("META" ∷ "L" ∷ [])
      ∷ key "b_tasks" 2 2 "Task view" "grid_view" green ("META" ∷ "TAB" ∷ [])
      ∷ key "b_close" 3 2 "Close" "close" red ("ALT" ∷ "F4" ∷ [])
      ∷ key "b_escape" 4 2 "Escape" "keyboard_return" grey ("ESCAPE" ∷ [])
      ∷ []

  abbrev pub default_profile : Profile Value
  default_profile = record {
    id = default_profile_id;
    name = "Default";
    grid = record { cols = 5; rows = 3 };
    pages = record { id = "pg_1"; name = "Main"; buttons = main_buttons } ∷ [];
  }

  -- `StoreFile::default`
  abbrev pub default_file : StoreFile Value
  default_file = record {
    profiles = (default_profile.id, default_profile) ∷ [];
    active = default_profile_id;
  }

  -- The layout of a fresh install passes the engine's own check, for a deck as for the panel.
  pub default_profile-valid : (role : Role) → validate default_profile role ≡ ok tt
  unfolding validate check_pages check_buttons check_button check_action access_for known contains
  default_profile-valid Role.deck = refl
  default_profile-valid Role.admin = refl
