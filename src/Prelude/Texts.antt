-- ===== src/Prelude/Texts.antt =====
-- Texts as lists of code points, and the operations of Rust's `str` and `char` that the program
-- uses. What the code finds at a byte position is found here at a character position: every
-- position that the code computes lies beside an ASCII character.
use Prim.Native.Nat.{ℕ, ◌+◌, ◌-◌, ◌*◌}
use Prim.Native.Char.{code}
use Prim.Native.String.{String}
use mathlib.Core.Bool.{Bool, true, false, ◌&&◌, ◌||◌}
use mathlib.Core.List.{List, [], ◌∷◌, reverse, map}
use mathlib.Core.Option.{Option, none, some}
use headless_siem.Prelude.Tests.{ltb, leb, if◌then◌else◌}
use headless_siem.Prelude.Equality.{◌==◌, nat_eq, list_eq}

abbrev pub Text : Type 0
Text = List ℕ

abbrev pub codes : String → Text
codes String.[] = []
codes (String.◌∷◌ c s) = code c ∷ codes s

abbrev pub is_empty : Text → Bool
is_empty [] = true
is_empty (c ∷ s) = false

abbrev within : ℕ → ℕ → ℕ → Bool
within lo hi c = leb lo c && leb c hi

-- `char::is_whitespace`: the Unicode property White_Space.
unfoldable pub is_whitespace : ℕ → Bool
is_whitespace c =
    within 9 13 c
    || c == 32
    || c == 0x85
    || c == 0xa0
    || c == 0x1680
    || within 0x2000 0x200a c
    || c == 0x2028
    || c == 0x2029
    || c == 0x202f
    || c == 0x205f
    || c == 0x3000

unfoldable pub is_ascii_digit : ℕ → Bool
is_ascii_digit c = within b'0' b'9' c

unfoldable pub is_ascii_alphanumeric : ℕ → Bool
unfolding is_ascii_digit
is_ascii_alphanumeric c = within b'a' b'z' c || within b'A' b'Z' c || is_ascii_digit c

unfoldable pub ascii_upper : ℕ → ℕ
ascii_upper c = if within b'a' b'z' c then c - 32 else c

-- `to_ascii_uppercase`
abbrev pub to_ascii_uppercase : Text → Text
to_ascii_uppercase s = map ascii_upper s

unfoldable pub ascii_lower : ℕ → ℕ
ascii_lower c = if within b'A' b'Z' c then c + 32 else c

-- `to_ascii_lowercase`
abbrev pub to_ascii_lowercase : Text → Text
to_ascii_lowercase s = map ascii_lower s

unfoldable pub is_ascii_alphabetic : ℕ → Bool
is_ascii_alphabetic c = within b'a' b'z' c || within b'A' b'Z' c

-- `eq_ignore_ascii_case`
abbrev pub eq_ignore_ascii_case : Text → Text → Bool
eq_ignore_ascii_case s t = to_ascii_uppercase s == to_ascii_uppercase t

abbrev pub starts_with : Text → Text → Bool
starts_with s [] = true
starts_with [] (p ∷ ps) = false
starts_with (c ∷ s) (p ∷ ps) = c == p && starts_with s ps

-- `strip_prefix`: what follows the prefix.
abbrev pub strip_prefix : Text → Text → Option Text
strip_prefix s [] = some s
strip_prefix [] (p ∷ ps) = none
strip_prefix (c ∷ s) (p ∷ ps) = if c == p then strip_prefix s ps else none

abbrev pub ends_with : Text → Text → Bool
ends_with s p = starts_with (reverse s) (reverse p)

-- `contains`
unfoldable pub contains : Text → Text → Bool
contains [] p = starts_with [] p
contains (c ∷ s) p = starts_with (c ∷ s) p || contains s p

-- `split_once` at a character.
unfoldable pub split_once : ℕ → Text → Option (Text × Text)
split_once d [] = none
split_once d (c ∷ s) =
    let rest = split_once d s in
    if c == d then some ([], s) else elim rest [ none ↦ none | some (a, b) ↦ some (c ∷ a, b) ]

-- `split_once` at a text that is not empty.
unfoldable pub split_once_at : Text → Text → Option (Text × Text)
split_once_at d [] = none
split_once_at d (c ∷ s) =
    let rest = split_once_at d s in
    elim (strip_prefix (c ∷ s) d) [
      | some after ↦ some ([], after)
      | none ↦ elim rest [ none ↦ none | some (a, b) ↦ some (c ∷ a, b) ]
    ]

-- `split` at a character: never empty.
unfoldable pub split : ℕ → Text → List Text
split d [] = [] ∷ []
split d (c ∷ s) =
    let rest = split d s in
    if c == d
    then [] ∷ rest
    else elim rest [ [] ↦ (c ∷ []) ∷ [] | part ∷ parts ↦ (c ∷ part) ∷ parts ]

unfoldable pub trim_start : Text → Text
trim_start [] = []
trim_start (c ∷ s) = let rest = trim_start s in if is_whitespace c then rest else c ∷ s

unfoldable pub trim : Text → Text
unfolding trim_start
trim s = reverse (trim_start (reverse (trim_start s)))

-- The digits of a number below `bound`, which is where the type overflows.
unfoldable pub digits_below : ℕ → ℕ → Text → Option ℕ
digits_below bound n [] = some n
digits_below bound n (c ∷ s) =
    let m = n * 10 + (c - b'0') in
    let rest = digits_below bound m s in if is_ascii_digit c && ltb m bound then rest else none

abbrev pub nonempty_digits : ℕ → Text → Option ℕ
nonempty_digits bound [] = none
nonempty_digits bound (c ∷ s) = digits_below bound 0 (c ∷ s)

-- `str::parse` at an unsigned type: an optional `+`, then at least one digit.
unfoldable pub parse_unsigned : ℕ → Text → Option ℕ
unfolding digits_below is_ascii_digit
parse_unsigned bound [] = none
parse_unsigned bound (c ∷ s) =
    if c == b'+' then nonempty_digits bound s else nonempty_digits bound (c ∷ s)

-- The order of two texts: by code point, which is the order of their UTF-8 bytes.
unfoldable pub text_lt : Text → Text → Bool
text_lt [] [] = false
text_lt [] (d ∷ t) = true
text_lt (c ∷ s) [] = false
text_lt (c ∷ s) (d ∷ t) =
    let rest = text_lt s t in if ltb c d then true else if c == d then rest else false
