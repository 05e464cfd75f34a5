-- ===== src/Engine/InputDispatch/Script.antt =====
-- What requests make a backend that refuses nothing do.
use Prim.Native.String.append
use muxdeck.Prelude.{
  ℕ, ◌+◌, ◌*◌, ◌≤◌, ◌≡◌, refl, ◌∙◌, sym, ap, String, false, none, List, [], ◌∷◌, ◌++◌, map, ◌==◌,
  nat_eq, if◌then◌else◌, ok, err, arith, ltb, length, Result-cases, Bool-cases, inl, inr,
}
use muxdeck.Prelude.Text.{as_bytes, format}
use muxdeck.Protocol.Keys.{Key}
use muxdeck.Protocol.Input.{
  KeyCombo, KeySequence, SequenceStep, TextRequest, hold_ms_or_default, delay_ms_or_default,
  validate_combo, validate_steps, validate_sequence,
}
use muxdeck.Engine.Errors.{Outcome}
use muxdeck.Engine.Backend.{InputBackend, Call, key_down, key_up, mock_backend}
use muxdeck.Engine.Backend.Balance.{reverse_onto, append_assoc, append_nil, mock_key_combo_lem}
use muxdeck.Engine.InputDispatch.{
  World, Effect, joined, Runtime, sleep, blocking, join_task, finish, and_then, key_combo, walk,
  key_sequence, type_chars, text, total_ms, chars, max_sequence_ms, max_text_len,
}
use muxdeck.Engine.InputDispatch.Limits.{pauses}

chars-join : (s : String) → format (chars s) ≡ s
unfolding chars format
chars-join String.[] = refl
chars-join (String.◌∷◌ c s) =
    append.cons c "" (format (chars s))
    ∙ ap (String.◌∷◌ c) (append.nil (format (chars s)) ∙ chars-join s)

append_empty : (s : String) → format (s ∷ []) ≡ s
unfolding format
append_empty String.[] = refl
append_empty (String.◌∷◌ c s) =
    append.cons c s "" ∙ ap (String.◌∷◌ c) (unfold format in append_empty s)

validate_cons :
    (c : KeyCombo) (steps : List SequenceStep)
    → validate_steps (SequenceStep.combo c ∷ steps) ≡ ok tt
    → (validate_combo c ≡ ok tt) × (validate_steps steps ≡ ok tt)
unfolding validate_steps
validate_cons c steps v = elim (Result-cases (validate_combo c)) [
  | inl (_, e) ↦ (e, rw e at v)
  | inr (x, e) ↦ absurd (cc)
]

module _ {Int Float : Type 0} (refusal : Key → String) where
  abbrev pub runtime : Runtime (List (Call Int Float))
  runtime desk = joined

  abbrev pub backend : InputBackend Int Float (List (Call Int Float))
  backend = mock_backend refusal none

  -- The keys of a combo going down in order and coming up in the opposite order.
  abbrev combo_calls : KeyCombo → List (Call Int Float)
  combo_calls c = map key_down c.keys ++ map key_up (reverse_onto c.keys [])

  abbrev pub script : List SequenceStep → List (Call Int Float)
  script [] = []
  script (SequenceStep.delay ms ∷ steps) = script steps
  script (SequenceStep.combo c ∷ steps) = combo_calls c ++ script steps

  abbrev pub Done :
      Outcome (Unit {0}) × World (List (Call Int Float))
      → World (List (Call Int Float))
      → List (Call Int Float)
      → ℕ
      → Type 0
  Done x w calls ms = (x.0 ≡ ok tt) × (x.1.desk ≡ w.desk ++ calls) × (x.1.slept ≡ w.slept + ms)

  key_combo-Done :
      (c : KeyCombo) (w : World (List (Call Int Float)))
      → validate_combo c ≡ ok tt
      → Done (key_combo runtime backend c w) w (combo_calls c) 0
  unfolding key_combo blocking join_task finish
  key_combo-Done c w e =
      let (good, calls) = mock_key_combo_lem refusal none c.keys (hold_ms_or_default c) w.desk in
      rw (e, key_combo)
        (
          ground arith,
          calls ∙ append_assoc w.desk (map key_down c.keys) (map key_up (reverse_onto c.keys [])),
          omega arith,
        )

  and_then-Done :
      (x : Outcome (Unit {0}) × World (List (Call Int Float)))
      (rest : Effect (List (Call Int Float))) (w : World (List (Call Int Float)))
      (first after : List (Call Int Float)) (m : ℕ)
      → Done x w first 0
      → Done (rest x.1) x.1 after m
      → Done (and_then x rest) w (first ++ after) m
  unfolding and_then
  and_then-Done (ok _, w') rest w first after m (r, d, s) (r', d', s') =
      (r', d' ∙ (ap (λ l. l ++ after) d ∙ append_assoc w.desk first after), omega arith)
  and_then-Done (err e, w') rest w first after m (r, d, s) done = cc

  walk-Done :
      (steps : List SequenceStep) (w : World (List (Call Int Float)))
      → validate_steps steps ≡ ok tt
      → Done (walk runtime backend steps w) w (script steps) (pauses steps)
  unfolding walk
  walk-Done [] w v = (refl, sym (append_nil _), omega arith)
  walk-Done (SequenceStep.delay ms ∷ steps) w v =
      let (r, d, s) = walk-Done steps (sleep ms w) (unfold validate_steps in v) in
      (r, unfold sleep in d, unfold sleep in omega (arith, s))
  walk-Done (SequenceStep.combo c ∷ steps) w v =
      let (here, rest) = validate_cons c steps v in
      and_then-Done (key_combo runtime backend c w) (walk runtime backend steps) w (combo_calls c)
        (script steps) (pauses steps) (key_combo-Done c w here)
        (walk-Done steps (key_combo runtime backend c w).1 rest)

  -- On a backend that refuses nothing, a sequence that passes its checks records, step by step, the keys
  -- of each combo going down in order and coming up in the opposite order, sleeps for the pauses
  -- alone, and succeeds.
  pub key_sequence-script :
      (request : KeySequence) (w : World (List (Call Int Float)))
      → validate_sequence request ≡ ok tt
      → total_ms request.steps ≤ 30000
      → Done
          (key_sequence runtime backend request w)
          w
          (script request.steps)
          (pauses request.steps)
  unfolding key_sequence
  key_sequence-script request w v short =
      let within : ltb max_sequence_ms (total_ms request.steps) ≡ false = ground arith in
      rw (v, within, key_sequence) (walk-Done request.steps w (unfold validate_sequence in v))

  type_chars-Done :
      (parts : List String) (delay : ℕ) (w : World (List (Call Int Float)))
      → Done
          (type_chars runtime backend parts delay w)
          w
          (map Call.text parts)
          (length parts * delay)
  unfolding type_chars
  type_chars-Done [] delay w = (refl, sym (append_nil _), omega arith)
  type_chars-Done (single ∷ rest) delay w =
      let (r, d, s) =
        type_chars-Done rest delay (sleep delay (blocking runtime (backend.text single) w).1) in
      unfold and_then blocking join_task finish sleep in
      (
        r,
        d ∙ append_assoc w.desk (Call.text single ∷ []) (map Call.text rest),
        unfold blocking join_task finish sleep in ground (arith, s),
      )

  -- On a backend that refuses nothing, a text within the limit is typed at once, or with a delay one
  -- character at a time, each followed by the delay: the calls spell the text.
  pub text_typed :
      (request : TextRequest) (w : World (List (Call Int Float)))
      → length (as_bytes request.text) ≤ 4096
      → let d = delay_ms_or_default request in
        let parts = if d == 0 then request.text ∷ [] else chars request.text in
        Done
          (text runtime backend request w)
          w
          (map Call.text parts)
          (length (chars request.text) * d)
        × (format parts ≡ request.text)
  unfolding text
  text_typed request w short =
      let within : ltb max_text_len (length (as_bytes request.text)) ≡ false = ground arith in
      elim (Bool-cases (delay_ms_or_default request == 0)) [
        | inl e ↦
            rw (within, e, text)
              (
                unfold blocking join_task finish in (refl, refl, ground arith),
                append_empty request.text,
              )
        | inr e ↦
            rw (within, e, text)
              (
                type_chars-Done (chars request.text) (delay_ms_or_default request) w,
                chars-join request.text,
              )
      ]
