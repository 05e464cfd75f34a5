-- ===== src/Input/Windows.antt =====
-- `SendInput`: engine/crates/muxdeck-input/src/windows.rs. The calls of the system are a parameter, and so
-- are the 64-bit floats with the operations that the code uses of them.
pub mod Codes
pub mod Keymap
pub mod Table
pub mod Release
pub mod Typing
use muxdeck.Prelude.{
  ℕ, ◌==◌, nat_eq, string_eq, String, Bool, true, false, List, [], ◌∷◌, ◌++◌, map, length,
  if◌then◌else◌, Result, ok, err,
}
use muxdeck.Prelude.Text.{format, to_string}
use muxdeck.Prelude.Utf16.{encode_utf16}
use muxdeck.Protocol.Keys.{Key}
use muxdeck.Protocol.Input.{MediaCommand, MouseButton}
use muxdeck.Engine.Backend.{
  InputBackend, Injection, InputError, rejected, MouseEvent, move_relative, move_absolute, click,
  down, up, scroll,
}
use muxdeck.Input.Effects.{both}
use muxdeck.Input.Held.{rev}
use muxdeck.Input.Windows.Keymap.{virtual_key, is_extended, media_key}

-- `KEYBD_EVENT_FLAGS`: `KEYEVENTF_SCANCODE` is never set.
pub record KeyFlags : Type 0 where
  pub extended_key : Bool
  pub key_up : Bool
  pub unicode : Bool

pub data MouseFlag : Type 0 where
  move absolute left_down left_up right_down right_up middle_down middle_up wheel hwheel : MouseFlag

-- `INPUT`; its time and its extra information are zero.
pub data Input (Int : Type 0) : Type 0 where
  keyboard : ℕ → ℕ → KeyFlags → Input Int
  pointer : Int → Int → Int → List MouseFlag → Input Int

-- What the code uses of `f64` and `i32`: `(value.clamp(0.0, 1.0) * ABSOLUTE_RANGE) as i32`,
-- `(notches * WHEEL_DELTA) as i32`, `!= 0.0`, and zero.
pub record Numbers (Int Float : Type 0) : Type 0 where
  pub clamp : Float → Float
  pub times : Float → ℕ → Float
  pub as_i32 : Float → Int
  pub is_zero : Float → Bool
  pub zero_i32 : Int

-- `SendInput` tells how many events it inserted; the text is that of the last error.
-- `MapVirtualKeyW` looks a scan code up.
pub record Win32 (Int Desk : Type 0) : Type 0 where
  pub send_input : List (Input Int) → Desk → ℕ × String × Desk
  pub map_virtual_key : ℕ → ℕ
  pub sleep : ℕ → Desk → Desk

module _ {Int Float Desk : Type 0} (numbers : Numbers Int Float) (win32 : Win32 Int Desk) where
  refusal : ℕ → ℕ → String → InputError
  refusal inserted asked error = rejected (
      format (
        "SendInput accepted "
        ∷ to_string inserted
        ∷ " of "
        ∷ to_string asked
        ∷ " events: "
        ∷ error
        ∷ ". A non-elevated daemon cannot inject into an elevated window."
        ∷ []))

  unfoldable pub send : List (Input Int) → Injection Desk
  unfolding refusal
  send events desk =
      let (inserted, error, desk') = win32.send_input events desk in
      if inserted == length events
      then (ok tt, desk')
      else (err (refusal inserted (length events) error), desk')

  unfoldable pub raw_key_event : ℕ → ℕ → KeyFlags → Input Int
  raw_key_event vk scan flags = keyboard vk scan flags

  unfoldable pub key_event : Bool → Key → Input Int
  unfolding raw_key_event
  key_event released key =
      let vk = virtual_key key in
      raw_key_event vk (win32.map_virtual_key vk)
        (record { extended_key = is_extended key; key_up = released; unicode = false })

  -- The virtual key of a character is zero, and its unit travels as the scan code.
  unfoldable pub unicode_event : ℕ → Bool → Input Int
  unfolding raw_key_event
  unicode_event unit released =
      raw_key_event 0 unit (record { extended_key = false; key_up = released; unicode = true })

  abbrev mouse_event : Int → Int → Int → List MouseFlag → Input Int
  mouse_event dx dy d flags = pointer dx dy d flags

  unfoldable pub button_flags : MouseButton → MouseFlag × MouseFlag
  button_flags MouseButton.left = (left_down, left_up)
  button_flags MouseButton.right = (right_down, right_up)
  button_flags MouseButton.middle = (middle_down, middle_up)

  unfoldable pub waited : ℕ → Desk → Desk
  waited hold desk = if hold == 0 then desk else win32.sleep hold desk

  unfoldable pub presses : List Key → List (Input Int)
  unfolding key_event
  presses keys = map (key_event false) keys

  unfoldable pub releases : List Key → List (Input Int)
  unfolding key_event rev
  releases keys = map (key_event true) (rev keys)

  unfoldable pub key_combo : List Key → ℕ → Injection Desk
  unfolding send waited presses releases
  key_combo [] hold desk = (ok tt, desk)
  key_combo (k ∷ ks) hold desk =
      let keys = k ∷ ks in
      let (press_result, desk1) = send (presses keys) desk in
      let (release_result, desk2) = send (releases keys) (waited hold desk1) in
      (both press_result release_result, desk2)

  -- For each unit its event down and its event up.
  unfoldable pub unit_events : List ℕ → List (Input Int)
  unfolding unicode_event
  unit_events [] = []
  unit_events (unit ∷ units) =
      unicode_event unit false ∷ unicode_event unit true ∷ unit_events units

  unfoldable pub text : String → Injection Desk
  unfolding send unit_events encode_utf16
  text s desk = if s == "" then (ok tt, desk) else send (unit_events (encode_utf16 s)) desk

  unfoldable pub media : MediaCommand → Injection Desk
  unfolding send raw_key_event
  media command =
      let vk = media_key command in
      send (
        raw_key_event vk 0 (record { extended_key = false; key_up = false; unicode = false })
        ∷ raw_key_event vk 0 (record { extended_key = false; key_up = true; unicode = false })
        ∷ [])

  absolute_range : ℕ
  absolute_range = 65535

  wheel_delta : ℕ
  wheel_delta = 120

  to_absolute : Float → Int
  unfolding absolute_range
  to_absolute value = numbers.as_i32 (numbers.times (numbers.clamp value) absolute_range)

  wheel_events : Float → MouseFlag → List (Input Int)
  unfolding wheel_delta
  wheel_events notches flag =
      if numbers.is_zero notches
      then []
      else mouse_event numbers.zero_i32 numbers.zero_i32
          (numbers.as_i32 (numbers.times notches wheel_delta)) (flag ∷ [])
        ∷ []

  unfoldable pub mouse_events : MouseEvent Int Float → List (Input Int)
  unfolding to_absolute wheel_events button_flags
  mouse_events (move_relative dx dy) = mouse_event dx dy numbers.zero_i32 (move ∷ []) ∷ []
  mouse_events (move_absolute x y) =
      mouse_event (to_absolute x) (to_absolute y) numbers.zero_i32 (move ∷ absolute ∷ []) ∷ []
  mouse_events (click button) =
      let z = numbers.zero_i32 in
      let (pressed, released) = button_flags button in
      mouse_event z z z (pressed ∷ []) ∷ mouse_event z z z (released ∷ []) ∷ []
  mouse_events (down button) =
      let z = numbers.zero_i32 in mouse_event z z z ((button_flags button).0 ∷ []) ∷ []
  mouse_events (up button) =
      let z = numbers.zero_i32 in mouse_event z z z ((button_flags button).1 ∷ []) ∷ []
  mouse_events (scroll dx dy) = wheel_events dy wheel ++ wheel_events dx hwheel

  unfoldable pub mouse : MouseEvent Int Float → Injection Desk
  unfolding send mouse_events
  mouse event desk = elim (mouse_events event) [ [] ↦ (ok tt, desk) | e ∷ es ↦ send (e ∷ es) desk ]

  abbrev pub windows_backend : InputBackend Int Float Desk
  windows_backend = record {
    key_combo = key_combo;
    text = text;
    media = media;
    mouse = mouse;
    preflight = ok tt;
    capabilities = record { text_unicode = true; media_keys = true; mouse = true };
    name = "sendinput";
  }
