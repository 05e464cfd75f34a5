-- ===== src/Input/Windows/Typing.antt =====
-- What a text types on Windows.
use muxdeck.Prelude.{ℕ, ◌≡◌, refl, ap, ◌∙◌, Bool, true, false, String, List, [], ◌∷◌}
use muxdeck.Prelude.Utf16.{encode_utf16, decode_utf16, codes, decode-encode_utf16}
use muxdeck.Input.Windows.{Input, keyboard, pointer, Numbers, Win32, unit_events, unicode_event}

-- The units of the character events that go down, and of those that come up.
abbrev pub typed : {Int : Type 0} → Bool → List (Input Int) → List ℕ
typed released [] = []
typed released (keyboard vk scan flags ∷ es) = elim flags.key_up [
  | true ↦ elim released [ true ↦ scan ∷ typed released es | false ↦ typed released es ]
  | false ↦ elim released [ true ↦ typed released es | false ↦ scan ∷ typed released es ]
]
typed released (pointer dx dy d flags ∷ es) = typed released es

module _ {Int Float Desk : Type 0} (numbers : Numbers Int Float) (win32 : Win32 Int Desk) where
  typed-events :
      (released : Bool) (units : List ℕ) → typed released (unit_events numbers win32 units) ≡ units
  unfolding unit_events unicode_event
  typed-events released [] = refl
  typed-events true (u ∷ us) = ap (λ l. u ∷ l) (typed-events true us)
  typed-events false (u ∷ us) = ap (λ l. u ∷ l) (typed-events false us)

  -- The events of a text, those that go down and those that come up, carry its characters, each in
  -- turn: read as UTF-16 their units are the text.
  pub typed-text :
      (released : Bool) (s : String)
      → decode_utf16 (typed released (unit_events numbers win32 (encode_utf16 s))) ≡ codes s
  typed-text released s =
      ap decode_utf16 (typed-events released (encode_utf16 s)) ∙ decode-encode_utf16 s
