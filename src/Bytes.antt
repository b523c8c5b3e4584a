-- ===== src/Bytes.antt =====
-- What `BufRead::read_line` gives on the bytes of a file: a line with its newline, if it is UTF-8.
-- src/indexd/src/parser.rs reads whole files with it, and src/siemctl/src/db.rs single lines. And the
-- positions in a text that count the bytes of its characters, as src/siemctl/src/time.rs uses them.
use headless_siem.Prelude.{
  ℕ, zero, suc, ◌+◌, ◌-◌, ◌*◌, Text, Bool, not, ◌&&◌, ◌||◌, Option, none, some, List, [], ◌∷◌, ◌==◌,
  nat_eq, ltb, leb, is_empty, if◌then◌else◌,
}

abbrev pub Bytes : Type 0
Bytes = List ℕ

-- Up to the newline and with it, and the rest.
unfoldable pub split_line : Bytes → Bytes × Bytes
split_line [] = ([], [])
split_line (b ∷ s) =
    let (line, rest) = split_line s in if b == 10 then (b ∷ [], s) else (b ∷ line, rest)

-- Between two characters, or inside one: the bytes that are missing, the value so far, and the
-- smallest value that needs this many bytes.
pub data Utf8 : Type 0 where
  between : Utf8
  inside : ℕ → ℕ → ℕ → Utf8

abbrev range : ℕ → ℕ → ℕ → Bool
range lo hi b = leb lo b && leb b hi

-- A scalar value that is not written in more bytes than it needs.
abbrev is_scalar : ℕ → ℕ → Bool
is_scalar least c = leb least c && leb c 0x10ffff && not (range 0xd800 0xdfff c)

abbrev last_byte : ℕ → ℕ → Option (Utf8 × Option ℕ)
last_byte least c = if is_scalar least c then some (between, some c) else none

utf8_step : Utf8 → ℕ → Option (Utf8 × Option ℕ)
utf8_step between b =
    if ltb b 0x80
    then some (between, some b)
    else if range 0xc0 0xdf b
    then some (inside 1 (b - 0xc0) 0x80, none)
    else if range 0xe0 0xef b
    then some (inside 2 (b - 0xe0) 0x800, none)
    else if range 0xf0 0xf7 b
    then some (inside 3 (b - 0xf0) 0x10000, none)
    else none
utf8_step (inside left acc least) b =
    if range 0x80 0xbf b
    then if left == 1
      then last_byte least (acc * 64 + (b - 0x80))
      else some (inside (left - 1) (acc * 64 + (b - 0x80)) least, none)
    else none

abbrev ended : Utf8 → Option Text
ended between = some []
ended (inside left acc least) = none

abbrev prepend : Option ℕ → Option Text → Option Text
prepend c none = none
prepend none (some s) = some s
prepend (some c) (some s) = some (c ∷ s)

utf8_from : Utf8 → Bytes → Option Text
unfolding utf8_step
utf8_from st [] = ended st
utf8_from st (b ∷ s) = elim (utf8_step st b) [
  | none ↦ none
  | some (st', c) ↦ prepend c (utf8_from st' s)
]

-- `String::from_utf8`
unfoldable pub from_utf8 : Bytes → Option Text
unfolding utf8_from
from_utf8 s = utf8_from between s

-- `trim_end_matches(['\n', '\r'])`
unfoldable pub trim_newlines : Text → Text
trim_newlines [] = []
trim_newlines (c ∷ s) =
    let rest = trim_newlines s in if is_empty rest && (c == 10 || c == 13) then [] else c ∷ rest

-- `char::len_utf8`
abbrev pub len_utf8 : ℕ → ℕ
len_utf8 c = if ltb c 0x80 then 1 else if ltb c 0x800 then 2 else if ltb c 0x10000 then 3 else 4

-- `str::len`
unfoldable pub byte_length : Text → ℕ
byte_length [] = 0
byte_length (c ∷ s) = len_utf8 c + byte_length s

abbrev pub before : ℕ → Option (Text × Text) → Option (Text × Text)
before c none = none
before c (some (front, rest)) = some (c ∷ front, rest)

-- `str::split_at`; `none` is its panic, behind the end or inside a character.
unfoldable pub split_at : ℕ → Text → Option (Text × Text)
split_at zero s = some ([], s)
split_at (suc n) [] = none
split_at (suc n) (c ∷ s) =
    let rest = split_at (suc n - len_utf8 c) s in
    if leb (len_utf8 c) (suc n) then before c rest else none
