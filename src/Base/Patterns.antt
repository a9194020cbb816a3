-- ===== src/Base/Patterns.antt =====
-- What Rust's `str` and `char` methods find in a text: classes of characters, prefixes, pieces.
use Prim.Native.Nat.{ℕ, ◌+◌}
use mathlib.Core.Bool.{Bool, true, false, ◌&&◌, ◌||◌}
use mathlib.Core.List.{List, [], ◌∷◌, map}
use mathlib.Core.Option.{Option, none, some}
use flowplane.Base.Tests.{leb, nat_eq, if◌then◌else◌}
use flowplane.Base.Lists.{any, all, length}
use flowplane.Base.Chars.{Text, as_bytes}

-- `char::is_whitespace`, and `trim().is_empty()`.
abbrev pub is_whitespace : ℕ → Bool
is_whitespace c =
    leb 9 c && leb c 13
    || nat_eq c 0x20
    || nat_eq c 0x85
    || nat_eq c 0xa0
    || nat_eq c 0x1680
    || leb 0x2000 c && leb c 0x200a
    || nat_eq c 0x2028
    || nat_eq c 0x2029
    || nat_eq c 0x202f
    || nat_eq c 0x205f
    || nat_eq c 0x3000

abbrev pub is_blank : Text → Bool
is_blank s = all is_whitespace s

abbrev pub is_ascii_digit : ℕ → Bool
is_ascii_digit c = leb 48 c && leb c 57

abbrev pub is_ascii_uppercase : ℕ → Bool
is_ascii_uppercase c = leb 65 c && leb c 90

abbrev pub is_ascii_alphanumeric : ℕ → Bool
is_ascii_alphanumeric c = is_ascii_digit c || is_ascii_uppercase c || leb 97 c && leb c 122

abbrev pub ascii_lower : ℕ → ℕ
ascii_lower c = if is_ascii_uppercase c then c + 32 else c

unfoldable pub to_ascii_lowercase : Text → Text
to_ascii_lowercase s = map ascii_lower s

-- `str::len`: the bytes of the UTF-8 encoding.
unfoldable pub len : Text → ℕ
unfolding as_bytes
len s = length (as_bytes s)

-- `str::contains` of one character, and of a text.
unfoldable pub contains_char : ℕ → Text → Bool
contains_char c s = any (λ d. nat_eq d c) s

unfoldable pub starts_with : Text → Text → Bool
starts_with s [] = true
starts_with [] (c ∷ prefix) = false
starts_with (d ∷ s) (c ∷ prefix) = nat_eq d c && starts_with s prefix

unfoldable pub contains_text : Text → Text → Bool
unfolding starts_with
contains_text s [] = true
contains_text [] (c ∷ piece) = false
contains_text (d ∷ s) (c ∷ piece) = starts_with (d ∷ s) (c ∷ piece) || contains_text s (c ∷ piece)

unfoldable pub strip_prefix : Text → Text → Option Text
strip_prefix s [] = some s
strip_prefix [] (c ∷ prefix) = none
strip_prefix (d ∷ s) (c ∷ prefix) = if nat_eq d c then strip_prefix s prefix else none

abbrev pub ends_with_char : ℕ → Text → Bool
ends_with_char c [] = false
ends_with_char c (d ∷ []) = nat_eq d c
ends_with_char c (d ∷ e ∷ s) = ends_with_char c (e ∷ s)

abbrev first_piece : ℕ → List Text → List Text
first_piece c [] = (c ∷ []) ∷ []
first_piece c (piece ∷ pieces) = (c ∷ piece) ∷ pieces

-- `str::split` at a character: one piece more than there are separators.
unfoldable pub split : ℕ → Text → List Text
split sep [] = [] ∷ []
split sep (c ∷ s) =
    let pieces = split sep s in if nat_eq c sep then [] ∷ pieces else first_piece c pieces

abbrev before : ℕ → Option (Text × Text) → Option (Text × Text)
before c none = none
before c (some (front, back)) = some (c ∷ front, back)

abbrev split_after : ℕ → Text → Option Text → Option (Text × Text) → Option (Text × Text)
split_after c s (some back) later = some ([], back)
split_after c s none later = before c later

-- `str::split_once` at a text: at its first place.
unfoldable pub split_once : Text → Text → Option (Text × Text)
unfolding strip_prefix
split_once sep [] = elim (strip_prefix [] sep) [ none ↦ none | some back ↦ some ([], back) ]
split_once sep (c ∷ s) = split_after c s (strip_prefix (c ∷ s) sep) (split_once sep s)

-- `trim_end_matches` of one character.
unfoldable pub trim_end : ℕ → Text → Text
trim_end c [] = []
trim_end c (d ∷ s) = elim (trim_end c s) [
  | [] ↦ if nat_eq d c then [] else d ∷ []
  | e ∷ rest ↦ d ∷ e ∷ rest
]

-- `str::trim`.
unfoldable pub trim_start : Text → Text
trim_start [] = []
trim_start (c ∷ s) = let rest = trim_start s in if is_whitespace c then rest else c ∷ s

unfoldable pub trim_tail : Text → Text
trim_tail [] = []
trim_tail (c ∷ s) = elim (trim_tail s) [
  | [] ↦ if is_whitespace c then [] else c ∷ []
  | d ∷ rest ↦ c ∷ d ∷ rest
]

unfoldable pub trim : Text → Text
unfolding trim_start trim_tail
trim s = trim_tail (trim_start s)
