-- ===== src/Input/Macos/Frameworks.antt =====
-- What engine/crates/muxdeck-input/src/macos/backend.rs uses of Core Graphics, AppKit and 64-bit floats.
use muxdeck.Prelude.{ℕ, Bool, String, Option}

-- `CGEventType` and `CGMouseButton`, as far as they are used.
pub data EventType : Type 0 where
  mouse_moved left_mouse_down left_mouse_up right_mouse_down right_mouse_up other_mouse_down :
      EventType
  other_mouse_up : EventType

pub data CgButton : Type 0 where
  left_button right_button center_button : CgButton

-- What is posted: a key with its flags and perhaps a text in its place, a mouse event with its click
-- state, lines of scrolling, or the flags and the first datum of a media key.
pub data Posted (Int Point : Type 0) : Type 0 where
  key_event : ℕ → Bool → ℕ → Option String → Posted Int Point
  mouse_event : EventType → Point → CgButton → ℕ → Posted Int Point
  scroll_event : Int → Int → Posted Int Point
  media_event : ℕ → ℕ → Posted Int Point

-- What the code uses of `f64`, `i32` and `CGPoint`.
pub record Numbers (Int Float Point : Type 0) : Type 0 where
  pub clamp : Float → Float
  pub multiply : Float → Float → Float
  pub add : Float → Float → Float
  pub from_i32 : Int → Float
  pub as_i32 : Float → Int
  pub is_zero : Int → Bool
  pub lines_per_notch : Float
  pub point : Float → Float → Point
  pub x_of : Point → Float
  pub y_of : Point → Float

-- The frameworks. An event may fail to be made; to post one gives no answer.
pub record Quartz (Int Float Point Desk : Type 0) : Type 0 where
  pub new_source : Desk → Bool × Desk
  pub new_keyboard_event : ℕ → Bool → Desk → Bool × Desk
  pub new_event : Desk → Bool × Desk
  pub new_mouse_event : EventType → Point → CgButton → Desk → Bool × Desk
  pub new_scroll_event : Int → Int → Desk → Bool × Desk
  pub ns_event_class : Desk → Bool × Desk
  pub other_event : ℕ → ℕ → Desk → Bool × Desk
  pub cg_event : Desk → Bool × Desk
  pub truncate_flags : ℕ → ℕ
  pub location : Desk → Point
  pub pixels_wide : Desk → Float
  pub pixels_high : Desk → Float
  pub process_trusted : Bool
  pub post : Posted Int Point → Desk → Desk
  pub sleep : ℕ → Desk → Desk
