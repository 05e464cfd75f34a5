-- ===== src/Input/Macos.antt =====
-- Quartz events: engine/crates/muxdeck-input/src/macos/backend.rs. The frameworks of the system are a
-- parameter, and so are the 64-bit floats with the operations that the code uses of them.
pub mod Frameworks
pub mod Codes
pub mod Keymap
pub mod Plan
pub mod Chunks
pub mod Table
pub mod Combo
pub mod Release
use Prim.Native.Nat.{bit_or}
use muxdeck.Prelude.{
  ℕ, ◌==◌, ◌*◌, ◌+◌, ◌^◌, nat_eq, string_eq, ltb, String, Bool, true, false, ◌&&◌, Option, none,
  some, List, [], ◌∷◌, ◌++◌, map, if◌then◌else◌, Result, ok, err, ok_or,
}
use muxdeck.Prelude.Text.{format}
use muxdeck.Protocol.Keys.{Key}
use muxdeck.Protocol.Input.{MediaCommand, MouseButton}
use muxdeck.Engine.Backend.{
  InputBackend, Injection, InputError, rejected, unsupported, not_permitted, MouseEvent,
  move_relative, move_absolute, click, down, up, scroll,
}
use muxdeck.Input.Effects.{Action, ◌>>=◌, ◌>>◌, pure, fail, both}
use muxdeck.Input.Held.{rev}
use muxdeck.Input.Macos.Keymap.{key_code, media_code, modifier_flag}
use muxdeck.Input.Macos.Chunks.{chunk_by_utf16}
use muxdeck.Input.Macos.Frameworks.{
  EventType, mouse_moved, left_mouse_down, left_mouse_up, right_mouse_down, right_mouse_up,
  other_mouse_down, other_mouse_up, CgButton, left_button, right_button, center_button, Posted,
  key_event, mouse_event, scroll_event, media_event, Numbers, Quartz,
}
use muxdeck.Input.Macos.Plan.{Names, plan}

module _ {Int Float Point Desk : Type 0} (numbers : Numbers Int Float Point)
    (quartz : Quartz Int Float Point Desk) (names : Names) where
  -- A call that tells whether it succeeded, with the error of its failure.
  made : String → (Desk → Bool × Desk) → Action Desk (Unit {0})
  made message call desk =
      let (done, desk') = call desk in
      if done then (ok tt, desk') else (err (rejected message), desk')

  abbrev post : Posted Int Point → Action Desk (Unit {0})
  post event desk = (ok tt, quartz.post event desk)

  source : Action Desk (Unit {0})
  unfolding made
  source = made "could not create an event source" quartz.new_source

  unfoldable pub keyboard_event : ℕ → Bool → Action Desk (Unit {0})
  unfolding made source
  keyboard_event code is_down = do
    source
    made "could not build a keyboard event" (quartz.new_keyboard_event code is_down)

  unfoldable pub post_keys : List ℕ → Bool → ℕ → Injection Desk
  unfolding keyboard_event
  post_keys [] is_down flags = pure tt
  post_keys (code ∷ codes) is_down flags = do
    keyboard_event code is_down
    post (key_event code is_down flags none)
    post_keys codes is_down flags

  unfoldable pub waited : ℕ → Desk → Desk
  waited hold desk = if hold == 0 then desk else quartz.sleep hold desk

  -- The events of a combo: both batches are sent, and their results are combined.
  unfoldable pub tap : ℕ → List ℕ → ℕ → Injection Desk
  unfolding post_keys waited rev
  tap flags codes hold desk =
      let (press, desk1) = post_keys codes true flags desk in
      let (release, desk2) = post_keys (rev codes) false flags (waited hold desk1) in
      (both press release, desk2)

  unfoldable pub key_combo : List Key → ℕ → Injection Desk
  unfolding plan tap
  key_combo [] hold desk = (ok tt, desk)
  key_combo (k ∷ ks) hold desk = elim (plan names (k ∷ ks)) [
    | err e ↦ (err e, desk)
    | ok (flags, codes) ↦ tap (quartz.truncate_flags flags) codes hold desk
  ]

  post_chunks : List String → Injection Desk
  unfolding keyboard_event
  post_chunks [] = pure tt
  post_chunks (chunk ∷ chunks) = do
    keyboard_event 0 true
    post (key_event 0 true 0 (some chunk))
    keyboard_event 0 false
    post (key_event 0 false 0 (some chunk))
    post_chunks chunks

  text_chunk_utf16 : ℕ
  text_chunk_utf16 = 20

  unfoldable pub text : String → Injection Desk
  unfolding post_chunks chunk_by_utf16 text_chunk_utf16
  text s = if s == "" then pure tt else post_chunks (chunk_by_utf16 s text_chunk_utf16)

  -- `data1` packs the code and the state; the flags carry the state again.
  unfoldable pub post_media : ℕ → Bool → Injection Desk
  unfolding made
  post_media code is_down =
      let state = if is_down then 0xA else 0xB in
      let data1 = bit_or (code * 2 ^ 16) (state * 2 ^ 8) in
      let flags = if is_down then 0xA00 else 0xB00 in
      do
        made "the NSEvent class is missing: AppKit did not load" quartz.ns_event_class
        made "NSEvent refused to build a media key event" (quartz.other_event flags data1)
        made "the media key event has no CGEvent representation" quartz.cg_event
        post (media_event flags data1)

  unfoldable pub media : MediaCommand → Injection Desk
  unfolding media_code post_media
  media command = elim (media_code command) [
    | none ↦ fail (
        unsupported (
          format (
            "macOS has no "
            ∷ names.command command
            ∷ " key: the hardware has never had one, so nothing listens for it. Use PLAY_PAUSE instead."
            ∷ [])))
    | some code ↦ do post_media code true; post_media code false
  ]

  cursor_location : Action Desk Point
  unfolding made source
  cursor_location desk =
      let (r, desk') =
        (do source; made "could not read the cursor position" quartz.new_event) desk in
      elim r [ err e ↦ (err e, desk') | ok _ ↦ (ok (quartz.location desk'), desk') ]

  post_mouse : EventType → Point → CgButton → ℕ → Injection Desk
  unfolding made source
  post_mouse event at button click_state = do
    source
    made "could not build a mouse event" (quartz.new_mouse_event event at button)
    post (mouse_event event at button click_state)

  unfoldable pub button_events : MouseButton → EventType × EventType × CgButton
  button_events MouseButton.left = (left_mouse_down, left_mouse_up, left_button)
  button_events MouseButton.right = (right_mouse_down, right_mouse_up, right_button)
  button_events MouseButton.middle = (other_mouse_down, other_mouse_up, center_button)

  -- A click posts its release whether or not its press was made.
  clicked : EventType → EventType → CgButton → Point → Injection Desk
  unfolding post_mouse
  clicked press release button at desk =
      let (pressed, desk1) = post_mouse press at button 1 desk in
      let (released, desk2) = post_mouse release at button 1 desk1 in (both pressed released, desk2)

  scrolled : Int → Int → Injection Desk
  unfolding made source
  scrolled vertical horizontal =
      if numbers.is_zero vertical && numbers.is_zero horizontal then pure tt else do
        source
        made "could not build a scroll event" (quartz.new_scroll_event vertical horizontal)
        post (scroll_event vertical horizontal)

  unfoldable pub mouse : MouseEvent Int Float → Injection Desk
  unfolding cursor_location post_mouse button_events clicked scrolled
  mouse (move_relative dx dy) = do
    at ← cursor_location
    post_mouse mouse_moved
        (numbers.point (numbers.add (numbers.x_of at) (numbers.from_i32 dx))
          (numbers.add (numbers.y_of at) (numbers.from_i32 dy)))
        left_button 0
  mouse (move_absolute x y) = λ desk.
      post_mouse mouse_moved
        (numbers.point (numbers.multiply (numbers.clamp x) (quartz.pixels_wide desk))
          (numbers.multiply (numbers.clamp y) (quartz.pixels_high desk)))
        left_button 0 desk
  mouse (click b) =
      let (press, release, button) = button_events b in
      do at ← cursor_location; clicked press release button at
  mouse (down b) =
      let (press, release, button) = button_events b in
      do at ← cursor_location; post_mouse press at button 1
  mouse (up b) =
      let (press, release, button) = button_events b in
      do at ← cursor_location; post_mouse release at button 1
  mouse (scroll dx dy) =
      scrolled (numbers.as_i32 (numbers.multiply dy numbers.lines_per_notch))
        (numbers.as_i32 (numbers.multiply dx numbers.lines_per_notch))

  abbrev pub macos_backend : InputBackend Int Float Desk
  macos_backend = record {
    key_combo = key_combo;
    text = text;
    media = media;
    mouse = mouse;
    preflight =
        if quartz.process_trusted
        then ok tt
        else err (
            not_permitted
              "MuxDeck does not have Accessibility permission, so keystrokes are silently discarded. Open System Settings > Privacy & Security > Accessibility, add MuxDeck, and turn it on. The permission is remembered per application binary, so moving or replacing the app requires granting it again.");
    capabilities = record { text_unicode = true; media_keys = true; mouse = true };
    name = "cgevent";
  }
