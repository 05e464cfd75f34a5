-- ===== src/Input/Macos/Chunks.antt =====
-- The pieces of a text: `chunk_by_utf16` of engine/crates/muxdeck-input/src/macos/backend.rs.
use Prim.Native.Char.{Char, code}
use Prim.Native.String.{◌++◌ as append}
use Prim.Native.String.append.{nil, cons}
use text.Mathlib.TextLemmas.{append-nil, append_assoc}
use muxdeck.Prelude.{
  ℕ, ◌+◌, ◌≤◌, ◌≡◌, refl, sym, ◌∙◌, ap, String, List, [], ◌∷◌, ltb, ◌==◌, string_eq, if◌then◌else◌,
  arith, All, Bool-cases, inl, inr, true, false, eq_iff,
}
use muxdeck.Prelude.Utf16.{len_utf16}

abbrev single : Char → String
single c = String.◌∷◌ c ""

-- The loop: the slice since `start`, its units, and the rest of the text.
unfoldable pub chunk_from : ℕ → String → ℕ → String → List String
chunk_from limit current units String.[] = if current == "" then [] else current ∷ []
chunk_from limit current units (String.◌∷◌ c s) =
    let width = len_utf16 (code c) in
    elim (ltb limit (units + width)) [
      | true ↦ current ∷ chunk_from limit (single c) width s
      | false ↦ chunk_from limit (append current (single c)) (units + width) s
    ]

unfoldable pub chunk_by_utf16 : String → ℕ → List String
unfolding chunk_from
chunk_by_utf16 text limit = chunk_from limit "" 0 text

-- The units of a text.
unfoldable pub utf16_len : String → ℕ
utf16_len String.[] = 0
utf16_len (String.◌∷◌ c s) = len_utf16 (code c) + utf16_len s

unfoldable pub concat : List String → String
concat [] = ""
concat (s ∷ ss) = append s (concat ss)

utf16_len-snoc :
    (s : String) (c : Char) → utf16_len (append s (single c)) ≡ utf16_len s + len_utf16 (code c)
unfolding utf16_len
utf16_len-snoc String.[] c = rw (nil (single c)) (omega arith)
utf16_len-snoc (String.◌∷◌ d s) c = rw (cons d s (single c)) (omega (arith, utf16_len-snoc s c))

module _ (limit : ℕ) (current : String) (units : ℕ) (c : Char) (s : String) where
  chunk_from-full :
      ltb limit (units + len_utf16 (code c)) ≡ true
      → chunk_from limit current units (String.◌∷◌ c s)
        ≡ current ∷ chunk_from limit (single c) (len_utf16 (code c)) s
  unfolding chunk_from
  chunk_from-full e = rw (e, chunk_from) refl

  chunk_from-fits :
      ltb limit (units + len_utf16 (code c)) ≡ false
      → chunk_from limit current units (String.◌∷◌ c s)
        ≡ chunk_from limit (append current (single c)) (units + len_utf16 (code c)) s
  unfolding chunk_from
  chunk_from-fits e = rw (e, chunk_from) refl

-- The rest of a text after one of its characters.
append-single : (c : Char) (s : String) → append (single c) s ≡ String.◌∷◌ c s
append-single c s = rw (cons c "" s, nil s) refl

concat-cons : (s : String) (ss : List String) → concat (s ∷ ss) ≡ append s (concat ss)
unfolding concat
concat-cons s ss = refl

concat-last : (current : String) → concat (if current == "" then [] else current ∷ []) ≡ current
unfolding concat
concat-last current = elim (Bool-cases (current == "")) [
  | inl e ↦ rw e (sym ((eq_iff current "").0 e))
  | inr e ↦ rw e (append-nil current)
]

concat-chunk_from :
    (limit : ℕ) (current : String) (units : ℕ) (s : String)
    → concat (chunk_from limit current units s) ≡ append current s
concat-chunk_from limit current units String.[] =
    unfold chunk_from in concat-last current ∙ sym (append-nil current)
concat-chunk_from limit current units (String.◌∷◌ c s) =
    elim (Bool-cases (ltb limit (units + len_utf16 (code c)))) [
      | inl e ↦
          ap concat (chunk_from-full limit current units c s e)
          ∙ concat-cons current (chunk_from limit (single c) (len_utf16 (code c)) s)
          ∙ ap (append current)
              (concat-chunk_from limit (single c) (len_utf16 (code c)) s ∙ append-single c s)
      | inr e ↦
          ap concat (chunk_from-fits limit current units c s e)
          ∙ concat-chunk_from limit (append current (single c)) (units + len_utf16 (code c)) s
          ∙ append_assoc current (single c) s
          ∙ ap (append current) (append-single c s)
    ]

abbrev IsShort : ℕ → List String → Type 0
IsShort limit chunks = All (λ chunk. utf16_len chunk ≤ limit) chunks

last-IsShort :
    (limit : ℕ) (current : String)
    → utf16_len current ≤ limit
    → IsShort limit (if current == "" then [] else current ∷ [])
last-IsShort limit current h = elim (Bool-cases (current == "")) [
  | inl e ↦ rw e tt
  | inr e ↦ rw e (h, tt)
]

single-short : (c : Char) → (utf16_len (single c) ≡ len_utf16 (code c)) × (len_utf16 (code c) ≤ 2)
unfolding utf16_len
single-short c = ground arith

chunk_from-IsShort :
    (limit : ℕ) (current : String) (units : ℕ) (s : String)
    → 2 ≤ limit
    → units ≤ limit
    → utf16_len current ≡ units
    → IsShort limit (chunk_from limit current units s)
chunk_from-IsShort limit current units String.[] low h e =
    unfold chunk_from in last-IsShort limit current (omega arith)
chunk_from-IsShort limit current units (String.◌∷◌ c s) low h e =
    let (same, two) = single-short c in
    elim (Bool-cases (ltb limit (units + len_utf16 (code c)))) [
      | inl full ↦ rw (chunk_from-full limit current units c s full) (
        omega arith,
        chunk_from-IsShort limit (single c) (len_utf16 (code c)) s low (omega arith) same,
      )
      | inr fits ↦ rw (chunk_from-fits limit current units c s fits) (
          chunk_from-IsShort limit (append current (single c)) (units + len_utf16 (code c)) s low
            (ground arith) (utf16_len-snoc current c ∙ ap (λ (n : ℕ). n + len_utf16 (code c)) e))
    ]

-- A text is cut between characters into pieces that make the whole text again, each of at most
-- `limit` UTF-16 units, where the limit has room for any one character.
pub chunk_by_utf16_lem :
    (text : String) (limit : ℕ)
    → 2 ≤ limit
    → (concat (chunk_by_utf16 text limit) ≡ text)
      × All (λ chunk. utf16_len chunk ≤ limit) (chunk_by_utf16 text limit)
unfolding chunk_by_utf16
chunk_by_utf16_lem text limit low = (
  concat-chunk_from limit "" 0 text ∙ nil text,
  chunk_from-IsShort limit "" 0 text low (omega arith) (unfold utf16_len in refl),
)
