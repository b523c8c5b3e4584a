-- ===== src/Indexd/Files/Whole.antt =====
-- src/indexd/src/parser.rs, `index_file`: what it leaves in the database, and what it returns.
use headless_siem.Prelude.{ℕ, ◌≡◌, ◌∙◌, Text, Option, some, List, length}
use headless_siem.Prelude.Results.{ok}
use headless_siem.Json.{Json}
use headless_siem.Bytes.{Bytes}
use headless_siem.Indexd.Parser.{Row}
use headless_siem.Indexd.Db.{Sqlite, IndexDb, open_bucket}
use headless_siem.Indexd.Db.Transactions.{Contents, IsTransactional, apply_rows}
use headless_siem.Indexd.Files.{index_file, bucket_of, relative_path}
use headless_siem.Indexd.Files.Lines.{lines_of, rows_of, misses_of}
use headless_siem.Indexd.Files.Runs.{saved_in, run-saved}
use headless_siem.Indexd.Files.Batches.{Complete, index_content-Complete}

module _ {V : Type 0} ⦃J : Json V⦄ (from_str : Text → Option V) (data_dir : Text) where
  -- The rows of a file and the number of its misses, without the batches.
  unfoldable pub file_rows : List Text → Text → List (ℕ × Text) → List Row
  file_rows index_fields file_path lines =
      rows_of from_str index_fields (relative_path data_dir file_path) lines

  unfoldable pub file_misses : List Text → Text → List (ℕ × Text) → ℕ
  file_misses index_fields file_path lines =
      misses_of from_str index_fields (relative_path data_dir file_path) lines

module _ {V C D : Type 0} ⦃J : Json V⦄ ⦃S : Sqlite C⦄ (Q : Contents C D) (T : IsTransactional S Q)
    (from_str : Text → Option V) (clock : ℕ → ℕ) (batch_size : ℕ) (read : Text → Option Bytes)
    (now : ℕ) (data_dir : Text) where
  -- Let transactions be as the database documents them, and let none fail to begin or to commit; let
  -- the file be there, its bucket be opened with the content `d₀` saved and no transaction under way,
  -- all lines of the file be UTF-8, and let the insertion of all its rows one after the other make `d`
  -- of `d₀`. Then, whatever the batch size is, `index_file` leaves `d` saved in the bucket's database
  -- and no transaction under way, and returns how many lines became rows and how many lines that are
  -- not empty did not.
  pub index_file-all_rows :
      (db db' : IndexDb C) (file_path : Text) (content : Bytes) (lines : List (ℕ × Text)) (d₀ d : D)
      → read file_path ≡ some content
      → open_bucket now db (bucket_of file_path) ≡ some db'
      → saved_in Q (bucket_of file_path) db' ≡ some d₀
      → lines_of content ≡ some lines
      → apply_rows Q db'.insert_sql db'.index_fields
          (file_rows from_str data_dir db'.index_fields file_path lines)
          d₀
        ≡ some d
      → (saved_in Q
            (bucket_of file_path)
            (index_file from_str clock batch_size read now db file_path data_dir).db
          ≡ some d)
        × ((index_file from_str clock batch_size read now db file_path data_dir).result
            ≡ ok (
              length (file_rows from_str data_dir db'.index_fields file_path lines),
              file_misses from_str data_dir db'.index_fields file_path lines,
            ))
  unfolding index_file Complete file_rows file_misses
  index_file-all_rows db db' file_path content lines d₀ d found opened before whole go =
      let raw_file = relative_path data_dir file_path in
      let bucket = bucket_of file_path in
      rw (found, index_file) rw (opened, index_file)
        (index_content-Complete from_str clock batch_size db'.index_fields raw_file bucket Q T db'
          content lines d whole
          (run-saved Q bucket db' (rows_of from_str db'.index_fields raw_file lines) d₀ before
            ∙ go))
