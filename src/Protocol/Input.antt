-- ===== src/Protocol/Input.antt =====
-- Input injection payloads and their checks: engine/crates/muxdeck-core/src/input.rs. `Float` is
-- the type of the 64-bit floats, on which the program does no arithmetic here.
use muxdeck.Prelude.{
  ℕ, suc, String, Option, List, [], ◌∷◌, ltb, if◌then◌else◌, unwrap_or, Result, ok, err, ◌>>◌,
}
use muxdeck.Protocol.Errors.{ErrorPayload, bad_request}
use muxdeck.Protocol.Keys.{Key, is_modifier}

pub record KeyCombo : Type 0 where
  pub keys : List Key
  pub hold_ms : Option ℕ

unfoldable pub hold_ms_or_default : KeyCombo → ℕ
hold_ms_or_default c = unwrap_or c.hold_ms 0

-- `filter(|k| !k.is_modifier()).count()`
unfoldable pub non_modifiers : List Key → ℕ
unfolding is_modifier
non_modifiers [] = 0
non_modifiers (k ∷ keys) = if is_modifier k then non_modifiers keys else suc (non_modifiers keys)

-- `KeyCombo::validate`
unfoldable pub validate_combo : KeyCombo → Result (Unit {0}) ErrorPayload
unfolding non_modifiers
validate_combo c = elim c.keys [
  | [] ↦ err (record { code = bad_request; message = "input.key_combo requires at least one key" })
  | first ∷ rest ↦
      if ltb 1 (non_modifiers c.keys)
      then err (record {
        code = bad_request;
        message = "input.key_combo accepts at most one non-modifier key; use input.key_sequence";
      })
      else ok tt
]

pub data SequenceStep : Type 0 where
  combo : KeyCombo → SequenceStep
  delay : ℕ → SequenceStep

pub record KeySequence : Type 0 where
  pub steps : List SequenceStep

unfoldable pub validate_steps : List SequenceStep → Result (Unit {0}) ErrorPayload
unfolding validate_combo
validate_steps [] = ok tt
validate_steps (combo c ∷ steps) = (validate_combo c >> validate_steps steps)
validate_steps (delay ms ∷ steps) = validate_steps steps

-- `KeySequence::validate`
unfoldable pub validate_sequence : KeySequence → Result (Unit {0}) ErrorPayload
unfolding validate_steps
validate_sequence s = validate_steps s.steps

pub record TextRequest : Type 0 where
  pub text : String
  pub delay_ms : Option ℕ

unfoldable pub delay_ms_or_default : TextRequest → ℕ
delay_ms_or_default r = unwrap_or r.delay_ms 0

pub data MediaCommand : Type 0 where
  play_pause next prev stop volume_up volume_down mute : MediaCommand

-- `MediaCommand::ALL`
abbrev pub all_commands : List MediaCommand
all_commands = play_pause ∷ next ∷ prev ∷ stop ∷ volume_up ∷ volume_down ∷ mute ∷ []

pub record MediaRequest : Type 0 where
  pub command : MediaCommand

pub data MouseButton : Type 0 where
  left right middle : MouseButton

-- The deltas of `MoveRel` are integers, which are passed on as they stand: `Int` is their type.
pub data MouseRequest (Int Float : Type 0) : Type 0 where
  move_rel : Int → Int → MouseRequest Int Float
  move_abs : Float → Float → MouseRequest Int Float
  click down up : MouseButton → MouseRequest Int Float
  scroll : Float → Float → MouseRequest Int Float
