-- ===== src/Engine/Backend.antt =====
-- The platform seam: `InputBackend` of engine/crates/muxdeck-input/src/lib.rs, with the recording
-- and the refusing backend of mock.rs and null.rs beside it. A method takes the desktop's state and
-- gives its result with the new one.
pub mod Balance
use muxdeck.Prelude.{
  ℕ, suc, String, Bool, true, false, Option, none, some, List, [], ◌∷◌, ◌++◌, ◌==◌, nat_eq,
  if◌then◌else◌, Result, ok, err,
}
use muxdeck.Prelude.Text.{format}
use muxdeck.Protocol.Keys.{Key}
use muxdeck.Protocol.Input.{MediaCommand, MouseButton}

pub data InputError : Type 0 where
  rejected unsupported not_permitted : String → InputError

-- Every variant shows its message as it stands.
unfoldable pub message : InputError → String
message (rejected m) = m
message (unsupported m) = m
message (not_permitted m) = m

pub record BackendCapabilities : Type 0 where
  pub text_unicode : Bool
  pub media_keys : Bool
  pub mouse : Bool

pub data MouseEvent (Int Float : Type 0) : Type 0 where
  move_relative : Int → Int → MouseEvent Int Float
  move_absolute : Float → Float → MouseEvent Int Float
  click down up : MouseButton → MouseEvent Int Float
  scroll : Float → Float → MouseEvent Int Float

abbrev pub Injection : Type 0 → Type 0
Injection Desk = Desk → Result (Unit {0}) InputError × Desk

pub record InputBackend (Int Float Desk : Type 0) : Type 0 where
  pub key_combo : List Key → ℕ → Injection Desk
  pub text : String → Injection Desk
  pub media : MediaCommand → Injection Desk
  pub mouse : MouseEvent Int Float → Injection Desk
  pub preflight : Result (Unit {0}) InputError
  pub capabilities : BackendCapabilities
  pub name : String

-- What the recording backend was asked to do.
pub data Call (Int Float : Type 0) : Type 0 where
  key_down key_up : Key → Call Int Float
  text : String → Call Int Float
  media : MediaCommand → Call Int Float
  mouse : MouseEvent Int Float → Call Int Float

abbrev outcome : Option InputError → Result (Unit {0}) InputError
outcome (some error) = err error
outcome none = ok tt

-- `NullBackend::refuse`
abbrev pub refuse : {Desk : Type 0} → String → Injection Desk
refuse reason desk = (err (unsupported reason), desk)

module _ {Int Float : Type 0} where
  -- `record`
  abbrev pub push : Call Int Float → List (Call Int Float) → List (Call Int Float)
  push call calls = calls ++ (call ∷ [])

  -- The loop over the keys, from an index on: the failure, the keys pressed, last one first, and
  -- the calls. `refusal` is the text of the debug format of a refused key.
  unfoldable pub press :
      (Key → String)
      → Option ℕ
      → ℕ
      → List Key
      → List Key
      → List (Call Int Float)
      → Option InputError × List Key × List (Call Int Float)
  press refusal fail_at index [] pressed calls = (none, pressed, calls)
  press refusal fail_at index (key ∷ keys) pressed calls =
      let rest =
        press refusal fail_at (suc index) keys (key ∷ pressed) (push (key_down key) calls) in
      elim fail_at [
        | none ↦ rest
        | some i ↦ if i == index then (some (rejected (refusal key)), pressed, calls) else rest
      ]

  -- `for key in pressed.iter().rev()`
  unfoldable pub release : List Key → List (Call Int Float) → List (Call Int Float)
  release [] calls = calls
  release (key ∷ pressed) calls = release pressed (push (key_up key) calls)

  -- `MockBackend::key_combo`
  unfoldable pub mock_key_combo :
      (Key → String) → Option ℕ → List Key → ℕ → Injection (List (Call Int Float))
  unfolding press release
  mock_key_combo refusal fail_at keys hold calls =
      let (failure, pressed, calls') = press refusal fail_at 0 keys [] calls in
      (outcome failure, release pressed calls')

  abbrev recorded : Call Int Float → Injection (List (Call Int Float))
  recorded call calls = (ok tt, push call calls)

  -- `MockBackend`, with the index at which a press fails
  abbrev pub mock_backend :
      (Key → String) → Option ℕ → InputBackend Int Float (List (Call Int Float))
  mock_backend refusal fail_at = record {
    key_combo = mock_key_combo refusal fail_at;
    text = λ s. recorded (text s);
    media = λ command. recorded (media command);
    mouse = λ event. recorded (mouse event);
    preflight = ok tt;
    capabilities = record { text_unicode = true; media_keys = true; mouse = true };
    name = "mock";
  }

  -- `NullBackend`
  abbrev pub null_backend : (Desk : Type 0) → String → InputBackend Int Float Desk
  null_backend Desk reason = record {
    key_combo = λ keys hold. refuse reason;
    text = λ s. refuse reason;
    media = λ command. refuse reason;
    mouse = λ event. refuse reason;
    preflight = err (not_permitted reason);
    capabilities = record { text_unicode = false; media_keys = false; mouse = false };
    name = "none";
  }
