-- ===== src/Examples/Desktops.antt =====
-- Combos, sequences and texts on the recording backend.
use muxdeck.Prelude.{
  ℕ, ◌≤◌, ◌+◌, ◌*◌, String, ◌≡◌, refl, none, some, List, [], ◌∷◌, map, ◌==◌, nat_eq, if◌then◌else◌,
  length, arith,
}
use muxdeck.Prelude.Text.{format, as_bytes}
use muxdeck.Protocol.Keys.{Key}
use muxdeck.Protocol.Input.{
  KeyCombo, KeySequence, SequenceStep, TextRequest, delay_ms_or_default, validate_sequence,
}
use muxdeck.Engine.Backend.{Call, key_down, key_up, mock_key_combo, mock_backend}
use muxdeck.Engine.InputDispatch.{World, Runtime, lost, key_sequence, text, chars, total_ms}
use muxdeck.Engine.InputDispatch.Limits.{key_sequence_slept, pauses}
use muxdeck.Engine.InputDispatch.Script.{
  key_sequence-script, text_typed, Done, script, runtime, backend,
}

abbrev refusal : Key → String
refusal key = "mock refused"

abbrev undo : List Key
undo = Key.control ∷ Key.shift ∷ Key.key_z ∷ []

two_up :
    (mock_key_combo {Int = ℕ} {Float = ℕ} refusal (some 2) undo 0 []).1
    ≡ key_down Key.control ∷ key_down Key.shift ∷ key_up Key.shift ∷ key_up Key.control ∷ []
unfolding mock_key_combo
two_up = refl

abbrev steps : KeySequence
steps = record {
  steps =
      SequenceStep.combo (record { keys = undo; hold_ms = some 50 })
      ∷ SequenceStep.delay 250
      ∷ SequenceStep.combo (record { keys = Key.enter ∷ []; hold_ms = none })
      ∷ [];
}

abbrev start : World (List (Call ℕ ℕ))
start = record { desk = []; slept = 0 }

-- A runtime that loses every task.
abbrev losing : Runtime (List (Call ℕ ℕ))
losing desk = lost "panicked" desk

key_sequence_slept_example :
    (key_sequence losing (mock_backend refusal none) steps start).1.slept ≤ start.slept + 30000
unfolding muxdeck.Protocol.Input.hold_ms_or_default
key_sequence_slept_example =
    key_sequence_slept losing (mock_backend refusal none) steps start
      (omega arith, (omega arith, (omega arith, tt))) (omega arith)

key_sequence-script_example :
    Done refusal
      (key_sequence (runtime refusal) (backend refusal) steps start)
      start
      (script refusal steps.steps)
      (pauses steps.steps)
unfolding validate_sequence total_ms
key_sequence-script_example = key_sequence-script refusal steps start refl (omega arith)

abbrev hello : TextRequest
hello = record { text = "hé"; delay_ms = some 5 }

text_typed_example :
    let d = delay_ms_or_default hello in
    let parts = if d == 0 then hello.text ∷ [] else chars hello.text in
    Done refusal
      (text (runtime refusal) (backend refusal) hello start)
      start
      (map Call.text parts)
      (length (chars hello.text) * d)
    × (format parts ≡ hello.text)
unfolding as_bytes
text_typed_example = text_typed refusal hello start (omega arith)
