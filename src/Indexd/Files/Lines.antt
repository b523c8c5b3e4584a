-- ===== src/Indexd/Files/Lines.antt =====
-- src/indexd/src/parser.rs, `index_file`: the lines of a file with the bytes at which they begin, and
-- the rows that are read from them, without the batches.
use headless_siem.Prelude.{
  ℕ, zero, suc, ◌+◌, ◌≤◌, ◌≡◌, sym, ap, ◌∙◌, arith, Text, Option, none, some, List, [], ◌∷◌, length,
}
use mathlib.Core.Option.{some-injective}
use headless_siem.Prelude.Options.{◌>>=◌, bind-first}
use headless_siem.Json.{Json}
use headless_siem.Bytes.{Bytes, split_line, from_utf8, trim_newlines}
use headless_siem.Indexd.Parser.{Row, parse_line}

-- The lines, without their newlines, if all of them are UTF-8. The fuel is a bound on the bytes.
unfoldable pub lines_from : ℕ → ℕ → Bytes → Option (List (ℕ × Text))
lines_from zero offset content = some []
lines_from (suc fuel) offset [] = some []
lines_from (suc fuel) offset (b ∷ content) = do
  line ← from_utf8 (split_line (b ∷ content)).0
  more ← lines_from fuel (offset + length (split_line (b ∷ content)).0) (split_line (b ∷ content)).1
  some ((offset, trim_newlines line) ∷ more)

unfoldable pub lines_of : Bytes → Option (List (ℕ × Text))
unfolding lines_from
lines_of content = lines_from (suc (length content)) 0 content

-- A file that is not empty: its first line, and the lines of what follows.
pub record FirstLine (fuel offset : ℕ) (content : Bytes) (lines : List (ℕ × Text)) : Type 0 where
  pub line : Text
  pub more : List (ℕ × Text)
  pub decoded : from_utf8 (split_line content).0 ≡ some line
  pub behind :
      lines_from fuel (offset + length (split_line content).0) (split_line content).1 ≡ some more
  pub first : (offset, trim_newlines line) ∷ more ≡ lines

pub lines_from-FirstLine :
    (fuel offset b : ℕ) (content : Bytes) (lines : List (ℕ × Text))
    → lines_from (suc fuel) offset (b ∷ content) ≡ some lines
    → FirstLine fuel offset (b ∷ content) lines
unfolding lines_from
lines_from-FirstLine fuel offset b content lines h =
    let s = b ∷ content in
    let later = lines_from fuel (offset + length (split_line s).0) (split_line s).1 in
    let k = λ (line : Text). later >>= λ more. some ((offset, trim_newlines line) ∷ more) in
    let (line, decoded) = bind-first (from_utf8 (split_line s).0) k lines h in
    let h' = sym (ap (λ r. r >>= k) decoded) ∙ h in
    let (more, behind) =
      bind-first later (λ more. some ((offset, trim_newlines line) ∷ more)) lines h' in
    record {
      line = line;
      more = more;
      decoded = decoded;
      behind = behind;
      first =
          some-injective _ _
            (sym (ap (λ r. r >>= λ more. some ((offset, trim_newlines line) ∷ more)) behind) ∙ h');
    }

pub split_line-shorter : (b : ℕ) (s : Bytes) → length (split_line (b ∷ s)).1 ≤ length s
unfolding split_line
split_line-shorter b [] = ground arith
split_line-shorter b (x ∷ s) = ground (arith, split_line-shorter x s)

abbrev pub with_row : Option Row → List Row → List Row
with_row none rows = rows
with_row (some row) rows = row ∷ rows

abbrev pub with_miss : Option Row → ℕ → ℕ
with_miss none n = n + 1
with_miss (some row) n = n

module _ {V : Type 0} ⦃J : Json V⦄ (from_str : Text → Option V) (index_fields : List Text)
    (raw_file : Text) where
  -- The rows of the lines that are not empty, in order.
  unfoldable pub rows_of : List (ℕ × Text) → List Row
  rows_of [] = []
  rows_of ((offset, []) ∷ lines) = rows_of lines
  rows_of ((offset, c ∷ line) ∷ lines) =
      with_row (parse_line from_str (c ∷ line) offset raw_file index_fields) (rows_of lines)

  -- How many lines that are not empty give no row.
  unfoldable pub misses_of : List (ℕ × Text) → ℕ
  misses_of [] = 0
  misses_of ((offset, []) ∷ lines) = misses_of lines
  misses_of ((offset, c ∷ line) ∷ lines) =
      with_miss (parse_line from_str (c ∷ line) offset raw_file index_fields) (misses_of lines)
