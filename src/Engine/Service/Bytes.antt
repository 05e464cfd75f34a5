-- ===== src/Engine/Service/Bytes.antt =====
-- The task file read back: `utf16le_with_bom` of engine/crates/muxdeck-engine/src/service.rs.
use muxdeck.Prelude.{
  ℕ, ◌+◌, ◌*◌, ◌/◌, ◌%◌, ◌<◌, ◌≡◌, refl, ap, ◌∙◌, String, Option, none, some, List, [], ◌∷◌, All,
  arith, ◌==◌, nat_eq, ◌&&◌, if◌then◌else◌,
}
use muxdeck.Prelude.Utf16.{
  codes, encode_utf16, decode_utf16, decode-encode_utf16, encode_utf16_units,
}
use muxdeck.Engine.Service.Texts.{le_bytes, utf16le_with_bom}

-- Two bytes to a unit, the low one first.
abbrev pub read_units : List ℕ → List ℕ
read_units [] = []
read_units (low ∷ []) = []
read_units (low ∷ high ∷ bytes) = (low + 256 * high) ∷ read_units bytes

-- A reader of UTF-16 that takes the order of the bytes from the mark.
unfoldable pub read_utf16 : List ℕ → Option (List ℕ)
unfolding decode_utf16
read_utf16 (a ∷ b ∷ bytes) =
    if a == 0xFF && b == 0xFE then some (decode_utf16 (read_units bytes)) else none
read_utf16 (a ∷ []) = none
read_utf16 [] = none

read_units-le_bytes :
    (units : List ℕ) → All (λ u. u < 65536) units → read_units (le_bytes units) ≡ units
unfolding le_bytes
read_units-le_bytes [] h = refl
read_units-le_bytes (u ∷ us) (bound, rest) =
    let whole : u % 256 + 256 * (u / 256 % 256) ≡ u = omega arith in
    rw (whole, read_units-le_bytes us rest) refl

-- The bytes that are handed to the task scheduler begin with the mark of little-endian UTF-16, and
-- read as such they are the characters of the text.
pub read_utf16-utf16le_with_bom :
    (text : String) → read_utf16 (utf16le_with_bom text) ≡ some (codes text)
unfolding read_utf16 utf16le_with_bom
read_utf16-utf16le_with_bom text =
    ap (λ units. some (decode_utf16 units))
      (read_units-le_bytes (encode_utf16 text) (encode_utf16_units text))
    ∙ ap some (decode-encode_utf16 text)
