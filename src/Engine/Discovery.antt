-- ===== src/Engine/Discovery.antt =====
-- The name of an advertisement: `sanitise` of engine/crates/muxdeck-engine/src/discovery.rs. The
-- advertisement itself is a call of the mDNS library.
use Prim.Native.Char.{code}
use muxdeck.Prelude.{
  ℕ, ◌≡◌, refl, Bool, true, false, ◌&&◌, ◌||◌, ltb, leb, String, ◌==◌, nat_eq, string_eq,
  if◌then◌else◌, All, arith, Bool-cases, inl, inr,
}
use muxdeck.Prelude.Text.{trim, trim_start, trim_end, is_whitespace}
use muxdeck.Prelude.Utf16.{codes}

-- `char::is_control`
abbrev pub is_control : ℕ → Bool
is_control n = ltb n 32 || (leb 127 n && ltb n 160)

abbrev cleaned : String → String
cleaned String.[] = ""
cleaned (String.◌∷◌ c s) =
    let rest = cleaned s in
    if code c == b'.'
    then String.◌∷◌ "-" rest
    else if is_control (code c)
    then rest
    else String.◌∷◌ c rest

unfoldable pub sanitise : String → String
unfolding trim
sanitise name = let trimmed = trim (cleaned name) in if trimmed == "" then "MuxDeck" else trimmed

-- A character that may stand in a label.
abbrev pub IsPlain : ℕ → Type 0
IsPlain n = ((n == b'.') ≡ false) × (is_control n ≡ false)

cleaned-IsPlain : (s : String) → All IsPlain (codes (cleaned s))
cleaned-IsPlain String.[] = tt
cleaned-IsPlain (String.◌∷◌ c s) = elim (Bool-cases (code c == b'.')) [
  | inl dot ↦ rw (dot, cleaned) ((refl, refl), cleaned-IsPlain s)
  | inr plain ↦ elim (Bool-cases (is_control (code c))) [
    | inl control ↦ rw (plain, control, cleaned) (cleaned-IsPlain s)
    | inr shown ↦ rw (plain, shown, cleaned) ((plain, shown), cleaned-IsPlain s)
  ]
]

trim_start-All : (P : ℕ → Type 0) (s : String) → All P (codes s) → All P (codes (trim_start s))
unfolding trim_start
trim_start-All P String.[] h = tt
trim_start-All P (String.◌∷◌ c s) (p, ps) = elim (Bool-cases (is_whitespace (code c))) [
  | inl e ↦ rw (e, trim_start) (trim_start-All P s ps)
  | inr e ↦ rw (e, trim_start) (p, ps)
]

trim_end-All : (P : ℕ → Type 0) (s : String) → All P (codes s) → All P (codes (trim_end s))
unfolding trim_end
trim_end-All P String.[] h = tt
trim_end-All P (String.◌∷◌ c s) (p, ps) =
    elim (Bool-cases (trim_end s == "" && is_whitespace (code c))) [
      | inl e ↦ rw (e, trim_end) tt
      | inr e ↦ rw (e, trim_end) (p, trim_end-All P s ps)
    ]

sanitise-fallback : (name : String) → (trim (cleaned name) == "") ≡ true → sanitise name ≡ "MuxDeck"
unfolding sanitise
sanitise-fallback name e = rw e refl

sanitise-trim :
    (name : String) → (trim (cleaned name) == "") ≡ false → sanitise name ≡ trim (cleaned name)
unfolding sanitise
sanitise-trim name e = rw e refl

-- Whatever the host's name, the name that is advertised is not empty and holds neither a dot, which
-- separates labels, nor a control character.
pub sanitise_lem :
    (name : String) → ((sanitise name == "") ≡ false) × All IsPlain (codes (sanitise name))
unfolding trim
sanitise_lem name = elim (Bool-cases (trim (cleaned name) == "")) [
  | inl e ↦ rw (sanitise-fallback name e) (refl, ground arith)
  | inr e ↦ rw (sanitise-trim name e) (
    e,
    trim_end-All IsPlain (trim_start (cleaned name))
        (trim_start-All IsPlain (cleaned name) (cleaned-IsPlain name)),
  )
]
