-- ===== src/Siemctl/Db/RawLine.antt =====
-- src/siemctl/src/db.rs, `resolve_raw_line`: the stored line behind a row of the index.
pub mod Indexed
use headless_siem.Prelude.{
  ℕ, Text, codes, starts_with, is_empty, join_path, Bool, true, false, Option, none, some, List, [],
  ◌∷◌, drop, if◌then◌else◌,
}
use headless_siem.Prelude.Results.{Result, ok, err}
use headless_siem.Bytes.{Bytes, split_line, from_utf8, trim_newlines}

pub data RawLineError : Type 0 where
  no_raw_file cannot_open read_failed empty_line : RawLineError

abbrev pub not_empty : Text → Result RawLineError Text
not_empty [] = err empty_line
not_empty (c ∷ line) = ok (c ∷ line)

-- `seek` and `read_line`; behind the end of the file there is an empty line.
unfoldable pub line_at : Bytes → ℕ → Result RawLineError Text
line_at content byte_offset = elim (from_utf8 (split_line (drop byte_offset content)).0) [
  | none ↦ err read_failed
  | some line ↦ not_empty (trim_newlines line)
]

-- `Path::join`, on a path that may be absolute.
abbrev joined : Text → Text → Text
joined data_dir path = if starts_with path (codes "/") then path else join_path data_dir path

-- `read` is the file system: the content of a file, or nothing.
unfoldable pub resolve_raw_line : (Text → Option Bytes) → Text → Text → ℕ → Result RawLineError Text
unfolding line_at
resolve_raw_line read data_dir raw_file byte_offset =
    let content = read (joined data_dir raw_file) in
    if is_empty raw_file
    then err no_raw_file
    else elim content [ none ↦ err cannot_open | some c ↦ line_at c byte_offset ]
