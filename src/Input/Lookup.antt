-- ===== src/Input/Lookup.antt =====
-- The inverse of a key table, by a search through the list of all keys.
use muxdeck.Prelude.{
  ℕ, ◌≡◌, ap, sym, ◌∙◌, Option, none, some, List, [], ◌∷◌, ◌==◌, nat_eq, if◌then◌else◌,
}
use muxdeck.Protocol.Keys
use muxdeck.Protocol.Keys.{Key}

abbrev pub find : (Key → ℕ) → ℕ → List Key → Option Key
find code n [] = none
find code n (k ∷ ks) = if code k == n then some k else find code n ks

-- The first key that has this code.
abbrev pub key_for : (Key → ℕ) → ℕ → Option Key
key_for code n = find code n Keys.all

-- A table that the search inverts gives no code twice.
pub inj_of_key_for :
    (code : Key → ℕ)
    → ((k : Key) → key_for code (code k) ≡ some k)
    → (a b : Key) → code a ≡ code b
    → a ≡ b
inj_of_key_for code inverse a b e =
    let same : some a ≡ some b = sym (inverse a) ∙ ap (key_for code) e ∙ inverse b in cc
