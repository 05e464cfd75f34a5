-- ===== src/Input/Macos/Table.antt =====
-- The key table of macOS: which keys it lacks, and that no two of the others share a code.
use muxdeck.Prelude.{
  ℕ, ◌≡◌, ◌≢◌, ◌↔◌, ◌⊎◌, inl, inr, refl, sym, ap, ◌∙◌, none, some, true, List, [], ◌∷◌, In, arith,
  unwrap_or,
}
use muxdeck.Protocol.Keys.{Key, is_modifier}
use muxdeck.Input.Lookup.{key_for}
use muxdeck.Input.Macos.Keymap.{key_code, modifier_flag}

-- Where a key without a code is put for the search: beyond every code.
abbrev slot : Key → ℕ
slot k = unwrap_or (key_code k) 1000

key_for-slot : (k : Key) → (key_code k ≡ none) ⊎ (key_for slot (slot k) ≡ some k)
unfolding key_code
key_for-slot Key.f21 = inl refl
key_for-slot Key.f22 = inl refl
key_for-slot Key.f23 = inl refl
key_for-slot Key.f24 = inl refl
key_for-slot Key.print_screen = inl refl
key_for-slot Key.scroll_lock = inl refl
key_for-slot Key.pause = inl refl
key_for-slot Key.menu = inl refl
key_for-slot _ = inr refl

abbrev pub unmapped : List Key
unmapped =
    Key.f21 ∷ Key.f22 ∷ Key.f23 ∷ Key.f24 ∷ Key.print_screen ∷ Key.scroll_lock ∷ Key.pause
    ∷ Key.menu ∷ []

pub key_code-none : (k : Key) → (key_code k ≡ none) ↔ In k unmapped
unfolding key_code
key_code-none Key.control = ground arith
key_code-none _ = ground arith

-- Keys that share a code are one key.
pub key_code_inj : (a b : Key) (c : ℕ) → key_code a ≡ some c → key_code b ≡ some c → a ≡ b
key_code_inj a b c p q = elim (key_for-slot a) [
  | inl lacks ↦ absurd (cc)
  | inr found ↦ elim (key_for-slot b) [
    | inl lacks ↦ absurd (cc)
    | inr found' ↦
        let same : slot a ≡ slot b = rw (p, q) refl in
        let e : some a ≡ some b = sym found ∙ ap (key_for slot) same ∙ found' in cc
  ]
]

-- The keys with a flag are the modifiers.
pub modifier_flag_iff : (k : Key) → (modifier_flag k ≡ none) ↔ (is_modifier k ≢ true)
unfolding modifier_flag is_modifier
modifier_flag_iff Key.control = ground arith
modifier_flag_iff _ = ground arith
