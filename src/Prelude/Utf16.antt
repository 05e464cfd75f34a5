-- ===== src/Prelude/Utf16.antt =====
-- UTF-16: `str::encode_utf16` and `char::len_utf16`, with a decoder to read the units back.
use Prim.Native.Nat.{ℕ, ◌+◌, ◌-◌, ◌*◌, ◌/◌, ◌%◌, ◌<◌}
use Prim.Native.Char.{char, code}
use Prim.Native.String.{String}
use mathlib.Core.Path.{◌≡◌, refl}
use mathlib.Core.Bool.{Bool, true, false, ◌&&◌}
use mathlib.Core.List.{List, [], ◌∷◌, ◌++◌}
use mathlib.Core.Logic.{inl, inr}
use native.Mathlib.Omega.{arith}
use muxdeck.Prelude.Tests.{ltb, leb, if◌then◌else◌, Bool-cases, ltb→lt}
use muxdeck.Prelude.Lists.{All}

abbrev pub codes : String → List ℕ
codes String.[] = []
codes (String.◌∷◌ c s) = code c ∷ codes s

-- `char::len_utf16`
abbrev pub len_utf16 : ℕ → ℕ
len_utf16 n = if ltb n 65536 then 1 else 2

abbrev encode_char : ℕ → List ℕ
encode_char n =
    if ltb n 65536 then n ∷ [] else (55296 + (n - 65536) / 1024) ∷ (56320 + (n - 65536) % 1024) ∷ []

unfoldable pub encode_utf16 : String → List ℕ
encode_utf16 String.[] = []
encode_utf16 (String.◌∷◌ c s) = encode_char (code c) ++ encode_utf16 s

abbrev pub is_high : ℕ → Bool
is_high u = leb 55296 u && ltb u 56320

-- A high surrogate takes the next unit with it.
unfoldable pub decode_utf16 : List ℕ → List ℕ
decode_utf16 [] = []
decode_utf16 (u ∷ []) = u ∷ []
decode_utf16 (u ∷ v ∷ us) = elim (is_high u) [
  | true ↦ (65536 + (u - 55296) * 1024 + (v - 56320)) ∷ decode_utf16 us
  | false ↦ u ∷ decode_utf16 (v ∷ us)
]

decode-plain :
    (u : ℕ) (us : List ℕ) → is_high u ≡ false → decode_utf16 (u ∷ us) ≡ u ∷ decode_utf16 us
unfolding decode_utf16
decode-plain u [] h = refl
decode-plain u (v ∷ us) h = rw (h, decode_utf16) refl

scalar_bounds : (c : Prim.Native.Char.Char) → (code c < 1114112) × (is_high (code c) ≡ false)
scalar_bounds (char n p) = ground arith

decode-pair :
    (n : ℕ) (us : List ℕ)
    → n < 1114112
    → ltb n 65536 ≡ false
    → decode_utf16 ((55296 + (n - 65536) / 1024) ∷ (56320 + (n - 65536) % 1024) ∷ us)
      ≡ n ∷ decode_utf16 us
unfolding decode_utf16
decode-pair n us bound large =
    let high : is_high (55296 + (n - 65536) / 1024) ≡ true = ground arith in
    let whole : 65536
          + (55296 + (n - 65536) / 1024 - 55296) * 1024
          + (56320 + (n - 65536) % 1024 - 56320)
        ≡ n =
      ground arith in
    rw (high, decode_utf16) (rw whole refl)

decode-encode_char :
    (n : ℕ) (us : List ℕ)
    → n < 1114112
    → is_high n ≡ false
    → decode_utf16 (encode_char n ++ us) ≡ n ∷ decode_utf16 us
decode-encode_char n us bound plain = elim (Bool-cases (ltb n 65536)) [
  | inl small ↦ rw small (decode-plain n us plain)
  | inr large ↦ rw large (decode-pair n us bound large)
]

-- Reading the units back gives the characters.
pub decode-encode_utf16 : (s : String) → decode_utf16 (encode_utf16 s) ≡ codes s
unfolding encode_utf16 decode_utf16
decode-encode_utf16 String.[] = refl
decode-encode_utf16 (String.◌∷◌ c s) =
    let (bound, plain) = scalar_bounds c in
    rw (decode-encode_char (code c) (encode_utf16 s) bound plain, decode-encode_utf16 s) refl

-- Every unit fits in two bytes.
pub encode_utf16_units : (s : String) → All (λ u. u < 65536) (encode_utf16 s)
unfolding encode_utf16
encode_utf16_units String.[] = tt
encode_utf16_units (String.◌∷◌ c s) =
    units (code c) (encode_utf16 s) (scalar_bounds c).0 (encode_utf16_units s)
  where
    units :
        (n : ℕ) (us : List ℕ)
        → n < 1114112
        → All (λ u. u < 65536) us
        → All (λ u. u < 65536) (encode_char n ++ us)
    units n us bound rest = elim (Bool-cases (ltb n 65536)) [
      | inl small ↦ rw small (ltb→lt n 65536 small, rest)
      | inr large ↦ rw large (omega arith, (omega arith, rest))
    ]
