-- ===== src/Engine/Service/Escape.antt =====
-- `xml_escape` of engine/crates/muxdeck-engine/src/service.rs, and a reader of escaped text.
use Prim.Native.Char.{Char, code}
use Prim.Native.String.{◌++◌ as append}
use Prim.Native.String.append.{nil, cons}
use text.Mathlib.TextLemmas.{append_assoc}
use text.Mathlib.TextEquality.{codes_equal}
use muxdeck.Prelude.{
  ◌≡◌, refl, sym, ◌∙◌, ap, String, Option, none, some, List, [], ◌∷◌, ◌==◌, nat_eq, string_eq, true,
  false, if◌then◌else◌, arith, Bool-cases, inl, inr, ℕ, Bool, leb, ◌&&◌, ◌||◌,
}

-- What a character becomes.
unfoldable pub escaped : Char → String
escaped c =
    if code c == b'&'
    then "&amp;"
    else if code c == b'<'
    then "&lt;"
    else if code c == b'>'
    then "&gt;"
    else if code c == b'"'
    then "&quot;"
    else if code c == b'\''
    then "&apos;"
    else String.◌∷◌ c ""

unfoldable pub xml_escape : String → String
unfolding escaped
xml_escape String.[] = ""
xml_escape (String.◌∷◌ c s) = append (escaped c) (xml_escape s)

-- The five entities of XML.
abbrev pub entity : String → Option String
entity name =
    if name == "amp"
    then some "&"
    else if name == "lt"
    then some "<"
    else if name == "gt"
    then some ">"
    else if name == "quot"
    then some "\""
    else if name == "apos"
    then some "'"
    else none

-- `Char` of XML 1.0, less the carriage return, which a reader turns into a line feed.
unfoldable pub is_plain : ℕ → Bool
is_plain n =
    n == 9
    || n == 10
    || (leb 32 n && leb n 55295)
    || (leb 57344 n && leb n 65533)
    || (leb 65536 n && leb n 1114111)

abbrev pub all_plain : String → Bool
all_plain String.[] = true
all_plain (String.◌∷◌ c s) = is_plain (code c) && all_plain s

first_plain :
    (c : Char) (s : String)
    → all_plain (String.◌∷◌ c s) ≡ true
    → (is_plain (code c) ≡ true) × (all_plain s ≡ true)
first_plain c s h = ground arith

abbrev pub cons_text : Char → Option (String × String) → Option (String × String)
cons_text c none = none
cons_text c (some (text, rest)) = some (String.◌∷◌ c text, rest)

abbrev pub expand : Option String → Option (String × String) → Option (String × String)
expand none x = none
expand (some t) none = none
expand (some t) (some (text, rest)) = some (append t text, rest)

-- A reader of XML character data: the text before the next tag, and what follows. It is stricter than
-- XML: it refuses what XML refuses, namely other characters, other entities and a text without an end,
-- and a carriage return and a bare `>` besides. The first argument is the name of an entity that is
-- being read.
unfoldable pub read_text : Option String → String → Option (String × String)
unfolding is_plain
read_text name String.[] = none
read_text none (String.◌∷◌ c s) =
    let in_entity = read_text (some "") s in
    let later = cons_text c (read_text none s) in
    if code c == b'<'
    then some ("", String.◌∷◌ c s)
    else if code c == b'&'
    then in_entity
    else if code c == b'>'
    then none
    else if is_plain (code c)
    then later
    else none
read_text (some name) (String.◌∷◌ c s) =
    let found = expand (entity name) (read_text none s) in
    let more = read_text (some (append name (String.◌∷◌ c ""))) s in
    if code c == b';' then found else more

abbrev chars : String → List Char
chars String.[] = []
chars (String.◌∷◌ c s) = c ∷ chars s

abbrev onto : List Char → String → String
onto [] t = t
onto (c ∷ cs) t = String.◌∷◌ c (onto cs t)

-- `append` in a form that computes.
append-onto : (s t : String) → append s t ≡ onto (chars s) t
append-onto String.[] t = nil t
append-onto (String.◌∷◌ c s) t = cons c s t ∙ ap (String.◌∷◌ c) (append-onto s t)

-- What is read of a text when its first character is `c`.
abbrev IsUnescaped : Char → String → String → Type 0
IsUnescaped c t s = read_text none t ≡ cons_text c (read_text none s)

char_of : (c d : Char) → (code c == code d) ≡ true → c ≡ d
char_of c d h = codes_equal c d (ground arith)

expand-one :
    (d : Char) (x : Option (String × String)) → expand (some (String.◌∷◌ d "")) x ≡ cons_text d x
expand-one d none = refl
expand-one d (some (text, rest)) = ap (λ t. some (t, rest)) (append-onto (String.◌∷◌ d "") text)

-- An entity is read as the character that it stands for.
entity-IsUnescaped :
    (c d : Char) (name s : String)
    → (code c == code d) ≡ true
    → read_text none (append name s) ≡ expand (some (String.◌∷◌ d "")) (read_text none s)
    → IsUnescaped c (append name s) s
entity-IsUnescaped c d name s same read =
    read
    ∙ expand-one d (read_text none s)
    ∙ ap (λ x. cons_text x (read_text none s)) (sym (char_of c d same))

read-amp : (s : String) → read_text none (append "&amp;" s) ≡ expand (some "&") (read_text none s)
unfolding read_text
read-amp s = ap (read_text none) (append-onto "&amp;" s)

read-lt : (s : String) → read_text none (append "&lt;" s) ≡ expand (some "<") (read_text none s)
unfolding read_text
read-lt s = ap (read_text none) (append-onto "&lt;" s)

read-gt : (s : String) → read_text none (append "&gt;" s) ≡ expand (some ">") (read_text none s)
unfolding read_text
read-gt s = ap (read_text none) (append-onto "&gt;" s)

read-quot :
    (s : String) → read_text none (append "&quot;" s) ≡ expand (some "\"") (read_text none s)
unfolding read_text
read-quot s = ap (read_text none) (append-onto "&quot;" s)

read-apos : (s : String) → read_text none (append "&apos;" s) ≡ expand (some "'") (read_text none s)
unfolding read_text
read-apos s = ap (read_text none) (append-onto "&apos;" s)

plain-IsUnescaped :
    (c : Char) (s : String)
    → (code c == b'<') ≡ false
    → (code c == b'&') ≡ false
    → (code c == b'>') ≡ false
    → is_plain (code c) ≡ true
    → IsUnescaped c (append (String.◌∷◌ c "") s) s
unfolding read_text
plain-IsUnescaped c s p q r h =
    ap (read_text none) (append-onto (String.◌∷◌ c "") s) ∙ rw (p, q, r, h) refl

escaped-IsUnescaped :
    (c : Char) (s : String) → is_plain (code c) ≡ true → IsUnescaped c (append (escaped c) s) s
unfolding escaped
escaped-IsUnescaped c s h = elim (Bool-cases (code c == b'&')) [
  | inl e ↦ rw e (entity-IsUnescaped c "&" "&amp;" s e (read-amp s))
  | inr amp ↦ elim (Bool-cases (code c == b'<')) [
    | inl e ↦ rw (amp, e) (entity-IsUnescaped c "<" "&lt;" s e (read-lt s))
    | inr lt ↦ elim (Bool-cases (code c == b'>')) [
      | inl e ↦ rw (amp, lt, e) (entity-IsUnescaped c ">" "&gt;" s e (read-gt s))
      | inr gt ↦ elim (Bool-cases (code c == b'"')) [
        | inl e ↦ rw (amp, lt, gt, e) (entity-IsUnescaped c "\"" "&quot;" s e (read-quot s))
        | inr quot ↦ elim (Bool-cases (code c == b'\'')) [
          | inl e ↦ rw (amp, lt, gt, quot, e) (entity-IsUnescaped c "'" "&apos;" s e (read-apos s))
          | inr apos ↦ rw (amp, lt, gt, quot, apos) (plain-IsUnescaped c s lt amp gt h)
        ]
      ]
    ]
  ]
]

-- A reader stops at a tag.
read_tag : (rest : String) → read_text none (append "<" rest) ≡ some ("", append "<" rest)
unfolding read_text
read_tag rest =
    ap (read_text none) (append-onto "<" rest) ∙ ap (λ s. some ("", s)) (sym (append-onto "<" rest))

-- For a text of characters that XML allows, without a carriage return, a strict XML reader that comes
-- to the escaped text accepts it, gets the text itself and stops at the tag that follows.
pub read_text-xml_escape :
    (s rest : String)
    → all_plain s ≡ true
    → read_text none (append (xml_escape s) (append "<" rest)) ≡ some (s, append "<" rest)
unfolding xml_escape
read_text-xml_escape String.[] rest plain =
    ap (read_text none) (nil (append "<" rest)) ∙ read_tag rest
read_text-xml_escape (String.◌∷◌ c s) rest h =
    let (first, plain) = first_plain c s h in
    let tail = append "<" rest in
    ap (read_text none) (append_assoc (escaped c) (xml_escape s) tail)
    ∙ escaped-IsUnescaped c (append (xml_escape s) tail) first
    ∙ ap (cons_text c) (read_text-xml_escape s rest plain)
