-- ===== src/Examples/Quartz.antt =====
-- A desktop of macOS on which the second key event of a combo cannot be made, and texts for it and for
-- Windows.
use muxdeck.Prelude.{
  ℕ, ◌≤◌, ◌+◌, ◌≡◌, inl, inr, refl, true, false, some, List, [], ◌∷◌, map, if◌then◌else◌, ok, err,
  arith, All, ◌==◌, nat_eq,
}
use muxdeck.Prelude.Sets.{contains}
use muxdeck.Prelude.Utf16.{encode_utf16, decode_utf16, codes}
use muxdeck.Protocol.Keys.{Key}
use muxdeck.Engine.Backend.{InputError}
use muxdeck.Input.Held.{settle, rev}
use muxdeck.Input.Macos.{post_keys, waited, key_combo}
use muxdeck.Input.Macos.Frameworks.{
  Numbers, Quartz, Posted, key_event, mouse_event, scroll_event, media_event,
}
use muxdeck.Input.Macos.Plan.{Names, plan}
use muxdeck.Input.Macos.Keymap.{key_code}
use muxdeck.Input.Macos.Release.{KeyboardLaw, cgevent_released}
use muxdeck.Input.Macos.Combo.{flags_of, tapped, tapped_or_all, plan_lem, key_combo_unmapped}
use muxdeck.Input.Macos.Chunks.{chunk_by_utf16, chunk_by_utf16_lem, concat, utf16_len}
use muxdeck.Input.Windows.{unit_events}
use muxdeck.Input.Windows.Typing.{typed, typed-text}
use muxdeck.Examples.Keyboards.{Desk, one_down, win32, numbers}

abbrev arithmetic : Numbers ℕ ℕ ℕ
arithmetic = record {
  clamp = λ x. x;
  multiply = λ x y. x;
  add = λ x y. x + y;
  from_i32 = λ x. x;
  as_i32 = λ x. x;
  is_zero = λ x. x == 0;
  lines_per_notch = 3;
  point = λ x y. x;
  x_of = λ p. p;
  y_of = λ p. p;
}

abbrev moved : Posted ℕ ℕ → Desk → Desk
moved (key_event code is_down flags string) desk = settle ((code, is_down) ∷ []) desk
moved (mouse_event event at button click_state) desk = desk
moved (scroll_event vertical horizontal) desk = desk
moved (media_event flags data1) desk = desk

-- The press of the space bar cannot be made.
abbrev quartz : Quartz ℕ ℕ ℕ Desk
quartz = record {
  new_source = λ desk. (true, desk);
  new_keyboard_event =
      λ code is_down desk. (if is_down then (if code == 49 then false else true) else true, desk);
  new_event = λ desk. (true, desk);
  new_mouse_event = λ event at button desk. (true, desk);
  new_scroll_event = λ vertical horizontal desk. (true, desk);
  ns_event_class = λ desk. (true, desk);
  other_event = λ flags data1 desk. (true, desk);
  cg_event = λ desk. (true, desk);
  truncate_flags = λ flags. flags;
  location = λ desk. 0;
  pixels_wide = λ desk. 1440;
  pixels_high = λ desk. 900;
  process_trusted = true;
  post = moved;
  sleep = λ ms desk. desk;
}

abbrev quartz_law : KeyboardLaw quartz
quartz_law = record {
  held = λ desk. desk;
  sources = λ desk. refl;
  keyboard_events = λ code is_down desk. refl;
  posts = λ code is_down flags desk c. refl;
  sleeps = λ ms desk. refl;
}

abbrev names : Names
names = record { key = λ k. "key"; command = λ command. "command" }

abbrev save : List Key
save = Key.meta ∷ Key.key_s ∷ Key.space ∷ []

planned_save : plan names save ≡ ok (flags_of 0 save, 1 ∷ 49 ∷ [])
unfolding plan
planned_save = refl

cgevent_released_example :
    (key_combo arithmetic quartz names save 50 one_down).1 1
    ≡ (if contains {A = ℕ} 1 (1 ∷ 49 ∷ []) then false else one_down 1)
unfolding post_keys waited rev
cgevent_released_example =
    cgevent_released arithmetic quartz names quartz_law save (flags_of 0 save) (1 ∷ 49 ∷ []) 50
      one_down planned_save refl 1

plan_lem_example :
    (flags_of 0 save ≡ flags_of 0 save)
    × (map some (1 ∷ 49 ∷ []) ≡ tapped_or_all (tapped save) save)
plan_lem_example = plan_lem names save (flags_of 0 save) (1 ∷ 49 ∷ []) planned_save

key_combo_unmapped_example :
    let keys = Key.control ∷ Key.print_screen ∷ [] in
    (e : InputError) × (key_combo arithmetic quartz names keys 0 one_down ≡ (err e, one_down))
unfolding key_code
key_combo_unmapped_example =
    key_combo_unmapped arithmetic quartz names (Key.control ∷ Key.print_screen ∷ []) 0 one_down
      Key.print_screen (inr (inl refl)) refl

-- A letter, a clef of two units, and a letter.
chunk_by_utf16_lem_example :
    (concat (chunk_by_utf16 "a𝄞b" 2) ≡ "a𝄞b")
    × All (λ chunk. utf16_len chunk ≤ 2) (chunk_by_utf16 "a𝄞b" 2)
chunk_by_utf16_lem_example = chunk_by_utf16_lem "a𝄞b" 2 (omega arith)

typed-text_example :
    decode_utf16 (typed true (unit_events numbers win32 (encode_utf16 "a𝄞b"))) ≡ codes "a𝄞b"
typed-text_example = typed-text numbers win32 true "a𝄞b"
