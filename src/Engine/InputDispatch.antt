-- ===== src/Engine/InputDispatch.antt =====
-- From `input.*` payloads to backend calls: engine/crates/muxdeck-engine/src/input_dispatch.rs.
-- The world of a handler is the desktop's state and the milliseconds slept so far; a task that is
-- lost (the join of `spawn_blocking` fails) is an answer of the runtime.
pub mod Limits
pub mod Script
use muxdeck.Prelude.{
  ℕ, ◌+◌, ◌%◌, ◌^◌, String, Bool, Option, none, some, List, [], ◌∷◌, ◌==◌, nat_eq, ltb,
  if◌then◌else◌, Result, ok, err, map_err, ◌>>=◌, length,
}
use muxdeck.Prelude.Text.{as_bytes, format, to_string}
use muxdeck.Protocol.Errors.{bad_request, injection_failed, internal}
use muxdeck.Protocol.Input.{
  KeyCombo, KeySequence, SequenceStep, TextRequest, MediaRequest, MouseRequest, hold_ms_or_default,
  delay_ms_or_default, validate_combo, validate_sequence,
}
use muxdeck.Engine.Errors.{EngineError, Outcome, wire_error, wire}
use muxdeck.Engine.Backend.{InputBackend, InputError, Injection, MouseEvent}
use muxdeck.Engine.Backend

abbrev pub max_text_len : ℕ
max_text_len = 4096

abbrev pub max_sequence_ms : ℕ
max_sequence_ms = 30000

pub record World (Desk : Type 0) : Type 0 where
  pub desk : Desk
  pub slept : ℕ

abbrev pub Effect : Type 0 → Type 0
Effect Desk = World Desk → Outcome (Unit {0}) × World Desk

-- How a spawned task ends: it runs to its end, or it is lost and leaves the desktop in any state.
pub data Task (Desk : Type 0) : Type 0 where
  joined : Task Desk
  lost : String → Desk → Task Desk

-- One request's runtime: how the task of its n-th injection ends, in a given desktop.
abbrev pub Runtime : Type 0 → Type 0
Runtime Desk = Desk → Task Desk

pub mouse_event : {Int Float : Type 0} → MouseRequest Int Float → MouseEvent Int Float
mouse_event (MouseRequest.move_rel dx dy) = MouseEvent.move_relative dx dy
mouse_event (MouseRequest.move_abs x y) = MouseEvent.move_absolute x y
mouse_event (MouseRequest.click button) = MouseEvent.click button
mouse_event (MouseRequest.down button) = MouseEvent.down button
mouse_event (MouseRequest.up button) = MouseEvent.up button
mouse_event (MouseRequest.scroll dx dy) = MouseEvent.scroll dx dy

abbrev failed : InputError → EngineError
failed error = wire injection_failed (Backend.message error)

-- What a sequence step takes, by the source's count.
abbrev pub step_ms : SequenceStep → ℕ
step_ms (SequenceStep.delay ms) = ms
step_ms (SequenceStep.combo c) = hold_ms_or_default c

-- `sum::<u64>()`
unfoldable pub total_ms : List SequenceStep → ℕ
unfolding hold_ms_or_default
total_ms [] = 0
total_ms (step ∷ steps) = (step_ms step + total_ms steps) % 2 ^ 64

-- `str::chars`, each as a string of its own
unfoldable pub chars : String → List String
chars String.[] = []
chars (String.◌∷◌ c s) = String.◌∷◌ c "" ∷ chars s

module _ {Desk : Type 0} where
  -- `tokio::time::sleep`
  unfoldable pub sleep : ℕ → World Desk → World Desk
  sleep ms w = record w { slept = w.slept + ms }

  finish : Result (Unit {0}) InputError × Desk → Effect Desk
  finish (r, desk) w = (map_err failed r, record w { desk = desk })

  join_task : Task Desk → Injection Desk → Effect Desk
  unfolding finish
  join_task joined work w = finish (work w.desk) w
  join_task (lost e desk) work w = (
    err (wire internal (format ("the injection task failed: " ∷ e ∷ []))),
    record w { desk = desk },
  )

  unfoldable pub blocking : Runtime Desk → Injection Desk → Effect Desk
  unfolding join_task
  blocking runtime work w = join_task (runtime w.desk) work w

  -- What follows an `await?`.
  unfoldable pub and_then :
      Outcome (Unit {0}) × World Desk → Effect Desk → Outcome (Unit {0}) × World Desk
  and_then (err e, w) rest = (err e, w)
  and_then (ok _, w) rest = rest w

  module _ {Int Float : Type 0} (runtime : Runtime Desk)
      (backend : InputBackend Int Float Desk) where
    unfoldable pub key_combo : KeyCombo → Effect Desk
    unfolding blocking hold_ms_or_default
    key_combo request w = elim (validate_combo request) [
      | err e ↦ (err (wire_error e), w)
      | ok _ ↦ blocking runtime (backend.key_combo request.keys (hold_ms_or_default request)) w
    ]

    -- The loop of `key_sequence`.
    unfoldable pub walk : List SequenceStep → Effect Desk
    unfolding key_combo and_then sleep
    walk [] w = (ok tt, w)
    walk (SequenceStep.delay ms ∷ steps) w = walk steps (sleep ms w)
    walk (SequenceStep.combo c ∷ steps) w = and_then (key_combo c w) (walk steps)

    unfoldable pub key_sequence : KeySequence → Effect Desk
    unfolding walk total_ms
    key_sequence request w = elim (validate_sequence request) [
      | err e ↦ (err (wire_error e), w)
      | ok _ ↦
          let total = total_ms request.steps in
          if ltb max_sequence_ms total
          then (
            err (
                wire bad_request (
                  format (
                    "the sequence would take "
                    ∷ to_string total
                    ∷ " ms; the limit is "
                    ∷ to_string max_sequence_ms
                    ∷ " ms"
                    ∷ []))),
            w,
          )
          else walk request.steps w
    ]

    -- The loop of `text` with a delay.
    unfoldable pub type_chars : List String → ℕ → Effect Desk
    unfolding blocking and_then sleep
    type_chars [] delay w = (ok tt, w)
    type_chars (single ∷ rest) delay w =
        and_then (blocking runtime (backend.text single) w)
          (λ w'. type_chars rest delay (sleep delay w'))

    unfoldable pub text : TextRequest → Effect Desk
    unfolding type_chars blocking chars delay_ms_or_default
    text request w =
        let bytes = length (as_bytes request.text) in
        let delay = delay_ms_or_default request in
        if ltb max_text_len bytes
        then (
          err (
              wire bad_request (
                format (
                  "text is "
                  ∷ to_string bytes
                  ∷ " bytes; the limit is "
                  ∷ to_string max_text_len
                  ∷ []))),
          w,
        )
        else if delay == 0
        then blocking runtime (backend.text request.text) w
        else type_chars (chars request.text) delay w

    unfoldable pub media : MediaRequest → Effect Desk
    unfolding blocking
    media request w = blocking runtime (backend.media request.command) w

    unfoldable pub mouse : MouseRequest Int Float → Effect Desk
    unfolding blocking mouse_event
    mouse request w = blocking runtime (backend.mouse (mouse_event request)) w
