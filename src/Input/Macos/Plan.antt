-- ===== src/Input/Macos/Plan.antt =====
-- What a combo is turned into: the first half of `key_combo` of
-- engine/crates/muxdeck-input/src/macos/backend.rs.
use Prim.Native.Nat.{bit_or}
use muxdeck.Prelude.{ℕ, String, none, some, List, [], ◌∷◌, ◌++◌, Result, ok, err, ok_or}
use muxdeck.Prelude.Text.{format}
use muxdeck.Protocol.Keys.{Key}
use muxdeck.Protocol.Input.{MediaCommand}
use muxdeck.Engine.Backend.{InputError, unsupported}
use muxdeck.Input.Macos.Keymap.{key_code, modifier_flag}

-- The debug names of keys and commands.
pub record Names : Type 0 where
  pub key : Key → String
  pub command : MediaCommand → String

unfoldable pub resolve : Names → Key → Result ℕ InputError
unfolding key_code
resolve names k = ok_or (key_code k) (
    unsupported (
      format (
        "macOS has no "
        ∷ names.key k
        ∷ " key. Apple keyboards have never had Print Screen, Scroll Lock, Pause, a Menu key, or F21 to F24, and there is no key code that means any of them."
        ∷ [])))

-- The loop over the keys: the flags so far, and the codes so far.
unfoldable pub split : Names → List Key → ℕ → List ℕ → Result (ℕ × List ℕ) InputError
unfolding resolve modifier_flag
split names [] flags codes = ok (flags, codes)
split names (k ∷ ks) flags codes = elim (modifier_flag k) [
  | some flag ↦ split names ks (bit_or flags flag) codes
  | none ↦ elim (resolve names k) [
    | ok code ↦ split names ks flags (codes ++ (code ∷ []))
    | err e ↦ err e
  ]
]

-- `collect` of the codes: the first that is missing is the error.
unfoldable pub resolve_all : Names → List Key → Result (List ℕ) InputError
unfolding resolve
resolve_all names [] = ok []
resolve_all names (k ∷ ks) = elim (resolve names k) [
  | err e ↦ err e
  | ok code ↦ elim (resolve_all names ks) [ err e ↦ err e | ok codes ↦ ok (code ∷ codes) ]
]

-- `codes` is filled with the modifiers' own codes when there is no other key.
unfoldable pub completed : Names → List Key → ℕ → List ℕ → Result (ℕ × List ℕ) InputError
unfolding resolve_all
completed names keys flags [] = elim (resolve_all names keys) [
  | err e ↦ err e
  | ok codes ↦ ok (flags, codes)
]
completed names keys flags (c ∷ cs) = ok (flags, c ∷ cs)

-- The flags of a combo and the codes that are tapped.
unfoldable pub plan : Names → List Key → Result (ℕ × List ℕ) InputError
unfolding split completed
plan names keys = elim (split names keys 0 []) [
  | err e ↦ err e
  | ok (flags, codes) ↦ completed names keys flags codes
]
