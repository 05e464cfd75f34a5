-- ===== src/Input/Windows/Table.antt =====
-- The key table of Windows: codes of one byte, told apart with the extended flag.
use muxdeck.Prelude.{ℕ, ◌≡◌, ◌≤◌, ◌+◌, refl, some, arith, if◌then◌else◌}
use muxdeck.Protocol.Keys.{Key}
use muxdeck.Input.Lookup.{key_for, inj_of_key_for}
use muxdeck.Input.Windows.Keymap.{virtual_key, is_extended}

abbrev signal : Key → ℕ
signal k = (if is_extended k then 256 else 0) + virtual_key k

key_for-signal : (k : Key) → key_for signal (signal k) ≡ some k
unfolding virtual_key is_extended
key_for-signal Key.control = refl
key_for-signal _ = refl

pub virtual_key_range : (k : Key) → (1 ≤ virtual_key k) × (virtual_key k ≤ 0xFF)
unfolding virtual_key
virtual_key_range Key.control = omega arith
virtual_key_range _ = omega arith

-- Two keys that send the same virtual key and the same extended flag are one key, and every virtual
-- key lies between 1 and 255.
pub virtual_key_inj :
    (a b : Key)
    → virtual_key a ≡ virtual_key b
    → is_extended a ≡ is_extended b
    → (a ≡ b) × (1 ≤ virtual_key a) × (virtual_key a ≤ 0xFF)
virtual_key_inj a b v e =
    let (low, high) = virtual_key_range a in
    (inj_of_key_for signal key_for-signal a b (rw (v, e) refl), low, high)
