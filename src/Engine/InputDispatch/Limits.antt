-- ===== src/Engine/InputDispatch/Limits.antt =====
-- How long a request holds its handler, and what it makes the backend do.
use muxdeck.Prelude.{
  ℕ, ◌+◌, ◌*◌, ◌^◌, ◌≤◌, ◌<◌, ◌≡◌, refl, List, [], ◌∷◌, nat_eq, ok, err, arith, ltb, length, All,
  Result-cases, Bool-cases, inl, inr,
}
use muxdeck.Protocol.Input.{
  KeyCombo, KeySequence, SequenceStep, hold_ms_or_default, validate_combo, validate_sequence,
}
use muxdeck.Engine.Errors.{Outcome}
use muxdeck.Engine.Backend.{InputBackend, Injection}
use muxdeck.Engine.InputDispatch.{
  World, Effect, joined, lost, Runtime, sleep, blocking, join_task, finish, and_then, key_combo,
  walk, key_sequence, total_ms, step_ms, max_sequence_ms,
}

-- A step whose milliseconds fit 32 bits.
abbrev pub StepFits : SequenceStep → Type 0
StepFits step = step_ms step < 2 ^ 32

abbrev sum_ms : List SequenceStep → ℕ
sum_ms [] = 0
sum_ms (step ∷ steps) = step_ms step + sum_ms steps

-- The pauses alone.
abbrev pub pauses : List SequenceStep → ℕ
pauses [] = 0
pauses (SequenceStep.delay ms ∷ steps) = ms + pauses steps
pauses (SequenceStep.combo c ∷ steps) = pauses steps

pauses_le_sum : (steps : List SequenceStep) → pauses steps ≤ sum_ms steps
pauses_le_sum [] = omega arith
pauses_le_sum (SequenceStep.delay ms ∷ steps) = omega (arith, pauses_le_sum steps)
pauses_le_sum (SequenceStep.combo c ∷ steps) = omega (arith, pauses_le_sum steps)

sum_bound : (steps : List SequenceStep) → All StepFits steps → sum_ms steps ≤ length steps * 2 ^ 32
sum_bound [] f = omega arith
sum_bound (step ∷ steps) (here, f) = omega (arith, here, sum_bound steps f)

total-sum :
    (steps : List SequenceStep)
    → All StepFits steps
    → length steps < 2 ^ 32
    → total_ms steps ≡ sum_ms steps
unfolding total_ms
total-sum [] f l = refl
total-sum (step ∷ steps) (here, f) l =
    let rest = total-sum steps f (omega arith) in
    let bound = sum_bound steps f in rw rest (omega (arith, here, bound, l))

module _ {Desk : Type 0} (runtime : Runtime Desk) where
  blocking_slept :
      (work : Injection Desk) (w : World Desk) → (blocking runtime work w).1.slept ≡ w.slept
  unfolding blocking
  blocking_slept work w = elim (runtime w.desk) as (λ t. (join_task t work w).1.slept ≡ w.slept) [
    | joined ↦ unfold join_task finish in refl
    | lost e desk ↦ unfold join_task in refl
  ]

  and_then_slept :
      (x : Outcome (Unit {0}) × World Desk) (rest : Effect Desk) (b : ℕ)
      → x.1.slept ≤ b
      → (rest x.1).1.slept ≤ b
      → (and_then x rest).1.slept ≤ b
  unfolding and_then
  and_then_slept (ok _, w) rest b h k = k
  and_then_slept (err e, w) rest b h k = h

  module _ {Int Float : Type 0} (backend : InputBackend Int Float Desk) where
    key_combo_slept :
        (c : KeyCombo) (w : World Desk) → (key_combo runtime backend c w).1.slept ≡ w.slept
    unfolding key_combo
    key_combo_slept c w = elim (Result-cases (validate_combo c)) [
      | inl (_, e) ↦
          rw (e, key_combo) (blocking_slept (backend.key_combo c.keys (hold_ms_or_default c)) w)
      | inr (x, e) ↦ rw (e, key_combo)
    ]

    walk_slept :
        (steps : List SequenceStep) (w : World Desk)
        → (walk runtime backend steps w).1.slept ≤ w.slept + pauses steps
    unfolding walk
    walk_slept [] w = omega arith
    walk_slept (SequenceStep.delay ms ∷ steps) w =
        unfold sleep in omega (arith, walk_slept steps (sleep ms w))
    walk_slept (SequenceStep.combo c ∷ steps) w =
        and_then_slept (key_combo runtime backend c w) (walk runtime backend steps)
          (w.slept + pauses steps) (omega (arith, key_combo_slept c w))
          (omega (arith, key_combo_slept c w, walk_slept steps (key_combo runtime backend c w).1))

    -- Whatever the backend and the runtime do, a sequence whose milliseconds fit 32 bits each, of fewer
    -- than 2^32 steps, keeps its handler asleep for 30 seconds at most.
    pub key_sequence_slept :
        (request : KeySequence) (w : World Desk)
        → All StepFits request.steps
        → length request.steps < 2 ^ 32
        → (key_sequence runtime backend request w).1.slept ≤ w.slept + 30000
    unfolding key_sequence
    key_sequence_slept request w fits few = elim (Result-cases (validate_sequence request)) [
      | inr (x, e) ↦ rw (e, key_sequence) (omega arith)
      | inl (_, e) ↦ elim (Bool-cases (ltb max_sequence_ms (total_ms request.steps))) [
        | inl l ↦ rw (e, l, key_sequence) (omega arith)
        | inr l ↦
            rw (e, l, key_sequence)
              (let total : total_ms request.steps ≤ 30000 = ground arith in
                omega (
                  arith,
                  total,
                  walk_slept request.steps w,
                  pauses_le_sum request.steps,
                  total-sum request.steps fits few,
                ))
      ]
    ]
