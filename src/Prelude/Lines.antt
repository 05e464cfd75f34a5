-- ===== src/Prelude/Lines.antt =====
-- What the program uses of Rust's `str` to read a tool's output: `lines`, `rsplit`, `trim_matches`,
-- `starts_with`, `eq_ignore_ascii_case`.
use Prim.Native.Nat.{ℕ, ◌+◌}
use Prim.Native.Char.{code}
use Prim.Native.String.{String}
use mathlib.Core.Path.{◌≡◌, refl}
use mathlib.Core.Bool.{Bool, true, false, ◌&&◌}
use mathlib.Core.List.{List, [], ◌∷◌}
use muxdeck.Prelude.Tests.{leb, ◌==◌, nat_eq, string_eq, if◌then◌else◌}

-- The pieces between the separators: the first one, and the others.
abbrev pub split : ℕ → String → String × List String
split sep String.[] = ("", [])
split sep (String.◌∷◌ c s) =
    let (piece, pieces) = split sep s in
    if code c == sep then ("", piece ∷ pieces) else (String.◌∷◌ c piece, pieces)

abbrev strip_return : String → String
strip_return String.[] = ""
strip_return (String.◌∷◌ c s) =
    let rest = strip_return s in if s == "" && code c == 13 then "" else String.◌∷◌ c rest

-- A line that ends loses its line feed and a carriage return before it; the last one is a line
-- when it is not empty.
abbrev ended : String → List String → List String
ended line [] = if line == "" then [] else line ∷ []
ended line (next ∷ rest) = strip_return line ∷ ended next rest

-- `str::lines`
unfoldable pub lines : String → List String
lines s = let (first, rest) = split b'\n' s in ended first rest

abbrev last_of : String → List String → String
last_of piece [] = piece
last_of piece (next ∷ rest) = last_of next rest

-- `rsplit(separator).next()`
unfoldable pub last_piece : ℕ → String → String
last_piece sep s = let (first, rest) = split sep s in last_of first rest

abbrev trim_start_char : ℕ → String → String
trim_start_char n String.[] = ""
trim_start_char n (String.◌∷◌ c s) = if code c == n then trim_start_char n s else String.◌∷◌ c s

abbrev trim_end_char : ℕ → String → String
trim_end_char n String.[] = ""
trim_end_char n (String.◌∷◌ c s) =
    let rest = trim_end_char n s in if rest == "" && code c == n then "" else String.◌∷◌ c rest

-- `trim_matches` of a character
unfoldable pub trim_matches : ℕ → String → String
trim_matches n s = trim_end_char n (trim_start_char n s)

-- `str::starts_with`, the prefix first
unfoldable pub starts_with : String → String → Bool
starts_with String.[] s = true
starts_with (String.◌∷◌ p ps) String.[] = false
starts_with (String.◌∷◌ p ps) (String.◌∷◌ c s) = code p == code c && starts_with ps s

abbrev lower : ℕ → ℕ
lower n = if leb 65 n && leb n 90 then n + 32 else n

-- `str::eq_ignore_ascii_case`
unfoldable pub eq_ignore_ascii_case : String → String → Bool
eq_ignore_ascii_case String.[] String.[] = true
eq_ignore_ascii_case String.[] (String.◌∷◌ d t) = false
eq_ignore_ascii_case (String.◌∷◌ c s) String.[] = false
eq_ignore_ascii_case (String.◌∷◌ c s) (String.◌∷◌ d t) =
    lower (code c) == lower (code d) && eq_ignore_ascii_case s t

lines_mixed : lines "a\r\nb\n\nc\r" ≡ "a" ∷ "b" ∷ "" ∷ "c\r" ∷ []
unfolding lines
lines_mixed = refl

last_piece_csv : trim_matches b'"' (last_piece b',' "\"\\MuxDeck\",\"N/A\",\"Ready\"") ≡ "Ready"
unfolding last_piece trim_matches
last_piece_csv = refl
