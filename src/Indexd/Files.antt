-- ===== src/Indexd/Files.antt =====
-- src/indexd/src/parser.rs, `index_file`: a stored file, line by line, into its hour's database.
-- The clock is read at each flush: `clock n` is its value behind the n-th indexed event.
pub mod Lines
pub mod Runs
pub mod Batches
pub mod Whole
use headless_siem.Prelude.{
  ℕ, zero, suc, ◌+◌, Text, codes, Bool, true, false, Option, none, some, List, [], ◌∷◌, ◌++◌,
  length, is_empty, leb, if◌then◌else◌, ◌==◌, nat_eq, list_eq,
}
use headless_siem.Prelude.Options.{◌>>=◌}
use headless_siem.Prelude.Results.{Result, ok, err}
use headless_siem.Json.{Json}
use headless_siem.Bytes.{Bytes, split_line, from_utf8, trim_newlines}
use headless_siem.Indexd.Parser.{Row, parse_line}
use headless_siem.Indexd.Db.{Sqlite, IndexDb, open_bucket, insert_batch}
use headless_siem.Indexd.Bucket.{components, derive_bucket}

-- `out_of_fuel` is the model's own.
pub data IndexError : Type 0 where
  not_found bucket_failed not_utf8 batch_failed out_of_fuel : IndexError

-- The variables of the loop.
pub record Progress (C : Type 0) : Type 0 where
  pub db : IndexDb C
  pub batch : List Row
  pub indexed : ℕ
  pub skipped : ℕ
  pub byte_offset : ℕ

-- The database as it is left, and what the function returns.
pub record Outcome (C : Type 0) : Type 0 where
  pub db : IndexDb C
  pub result : Result IndexError (ℕ × ℕ)

-- `join("/")`
abbrev join_slashes : List Text → Text
join_slashes [] = []
join_slashes (s ∷ []) = s
join_slashes (s ∷ t ∷ rest) = s ++ codes "/" ++ join_slashes (t ∷ rest)

abbrev strip_components : List Text → List Text → Option (List Text)
strip_components [] path = some path
strip_components (d ∷ dir) [] = none
strip_components (d ∷ dir) (c ∷ path) = if d == c then strip_components dir path else none

-- `strip_prefix` of paths, or else the whole path. What is left has single slashes.
unfoldable pub relative_path : Text → Text → Text
unfolding components
relative_path data_dir path = elim (strip_components (components data_dir) (components path)) [
  | some rest ↦ join_slashes rest
  | none ↦ path
]

abbrev or_unknown : Option Text → Text
or_unknown none = codes "unknown"
or_unknown (some b) = b

unfoldable pub bucket_of : Text → Text
bucket_of file_path = or_unknown (derive_bucket file_path)

module _ {V C : Type 0} ⦃J : Json V⦄ ⦃S : Sqlite C⦄ (from_str : Text → Option V) (clock : ℕ → ℕ)
    (batch_size : ℕ) (index_fields : List Text) (raw_file bucket_key : Text) where
  -- Whether to flush, and the flush; `none` is an error of the database.
  flush_full : Progress C → Option (Progress C)
  flush_full p =
      let flushed = insert_batch (clock p.indexed) p.db bucket_key p.batch in
      elim (leb batch_size (length p.batch)) [
        | true ↦ flushed >>= λ db. some (record p { db = db; batch = [] })
        | false ↦ some p
      ]

  add_row : Progress C → Option Row → Option (Progress C)
  unfolding flush_full
  add_row p none = some (record p { skipped = p.skipped + 1 })
  add_row p (some row) =
      flush_full (record p { batch = p.batch ++ row ∷ []; indexed = p.indexed + 1 })

  -- A line, without its newline, that begins at `line_start`.
  take_text : ℕ → Progress C → Text → Option (Progress C)
  unfolding add_row
  take_text line_start p [] = some p
  take_text line_start p (c ∷ line) =
      add_row p (parse_line from_str (c ∷ line) line_start raw_file index_fields)

  -- A line as it was read; the offset moves on first.
  take_line : Bytes → Text → Progress C → Option (Progress C)
  unfolding take_text
  take_line bytes line p =
      take_text p.byte_offset (record p { byte_offset = p.byte_offset + length bytes })
        (trim_newlines line)

  -- What is left in the batch, behind the loop.
  finish : Progress C → Outcome C
  finish p = elim (insert_batch (clock p.indexed) p.db bucket_key p.batch) [
    | none ↦ record { db = p.db; result = err batch_failed }
    | some db ↦ record { db = db; result = ok (p.indexed, p.skipped) }
  ]

  read_loop : ℕ → Bytes → Progress C → Outcome C
  unfolding take_line finish
  read_loop zero content p = record { db = p.db; result = err out_of_fuel }
  read_loop (suc fuel) [] p = finish p
  read_loop (suc fuel) (b ∷ content) p =
      let (bytes, rest) = split_line (b ∷ content) in
      elim (from_utf8 bytes) [
        | none ↦ record { db = p.db; result = err not_utf8 }
        | some line ↦ elim (take_line bytes line p) [
          | none ↦ record { db = p.db; result = err batch_failed }
          | some p' ↦ read_loop fuel rest p'
        ]
      ]

  -- `index_file` behind `open_bucket`. Each round takes a byte at least.
  unfoldable pub index_content : IndexDb C → Bytes → Outcome C
  unfolding read_loop
  index_content db content =
      read_loop (suc (length content)) content
        (record { db = db; batch = []; indexed = 0; skipped = 0; byte_offset = 0 })

-- `read` is the file system, which gives the content of a file, or nothing; `now` is the clock at
-- `open_bucket`.
module _ {V C : Type 0} ⦃J : Json V⦄ ⦃S : Sqlite C⦄ (from_str : Text → Option V) (clock : ℕ → ℕ)
    (batch_size : ℕ) (read : Text → Option Bytes) (now : ℕ) where
  unfoldable pub index_file : IndexDb C → Text → Text → Outcome C
  unfolding relative_path
  index_file db file_path data_dir =
      let bucket = bucket_of file_path in
      let raw_file = relative_path data_dir file_path in
      elim (read file_path) [
        | none ↦ record { db = db; result = err not_found }
        | some content ↦ elim (open_bucket now db bucket) [
          | none ↦ record { db = db; result = err bucket_failed }
          | some db' ↦
              index_content from_str clock batch_size db'.index_fields raw_file bucket db' content
        ]
      ]
