-- ===== src/Indexd/Samples.antt =====
-- A stored file of four lines, and a database that keeps the rows that are executed.
use headless_siem.Prelude.{
  ℕ, Text, codes, starts_with, Option, none, some, List, [], ◌∷◌, ◌++◌, length, ◌≡◌, refl, sym, ap,
  subst, is_empty, ◌⊎◌, inl, inr, if◌then◌else◌, split, is_ascii_digit, decimal_from, decimal,
  insert, empty_map, nat_eq, list_eq,
}
use mathlib.Core.Option.{some-injective}
use headless_siem.Prelude.Results.{ok}
use headless_siem.Json.Sample.{Value, obj, str, Fields, end, sample_json}
use headless_siem.Bytes.{Bytes, split_line, from_utf8, trim_newlines}
use headless_siem.Indexd.Parser.{parse_line}
use headless_siem.Indexd.Db.{Sqlite, IndexDb, new_db, open_bucket, row_values}
use headless_siem.Indexd.Db.Transactions.{Contents, IsTransactional, settled, apply_rows}
use headless_siem.Indexd.Bucket.{derive_bucket}
use headless_siem.Indexd.Files.{index_file, bucket_of, relative_path}
use headless_siem.Indexd.Files.Lines.{lines_of, rows_of}
use headless_siem.Indexd.Files.Runs.{saved_in}
use headless_siem.Indexd.Files.Whole.{file_rows, file_misses, index_file-all_rows}
use headless_siem.Siemctl.Db.RawLine.Indexed.{ResolvesTo, index_file-resolve}

abbrev Table : Type 0
Table = List (List Text)

record Conn : Type 0 where
  table : Table
  transaction : Option Table

abbrev begin_conn : Conn → Option Conn
begin_conn c = elim c.transaction [
  | none ↦ some (record c { transaction = some c.table })
  | some t ↦ none
]

abbrev execute_conn : Conn → Text → List Text → Option Conn
execute_conn c sql values = elim c.transaction [
  | none ↦ some (record c { table = c.table ++ values ∷ [] })
  | some t ↦ some (record c { transaction = some (t ++ values ∷ []) })
]

abbrev commit_conn : Conn → Option Conn
commit_conn c = elim c.transaction [
  | none ↦ none
  | some t ↦ some (record { table = t; transaction = none })
]

instance abbrev table_sqlite : Sqlite Conn
table_sqlite = record {
  open_path = λ path. some (record { table = []; transaction = none });
  execute_batch = λ c sql. some c;
  table_info = λ c. some [];
  begin = begin_conn;
  execute = execute_conn;
  commit = commit_conn;
}

abbrev contents : Contents Conn Table
contents = record {
  saved = λ c. c.table;
  inside = λ c. c.transaction;
  apply = λ sql values t. some (t ++ values ∷ []);
}

begins_conn :
    (c : Conn)
    → c.transaction ≡ none
    → (c' : Conn) × (begin_conn c ≡ some c') × (c'.transaction ≡ some c.table)
begins_conn c h = (record c { transaction = some c.table }, rw h refl, refl)

executes_conn :
    (sql : Text) (values : List Text) (c : Conn) (t t' : Table)
    → c.transaction ≡ some t
    → some (t ++ values ∷ []) ≡ some t'
    → (c' : Conn) × (execute_conn c sql values ≡ some c') × (c'.transaction ≡ some t')
executes_conn sql values c t t' h go =
    (record c { transaction = some (t ++ values ∷ []) }, rw h refl, go)

commits_conn :
    (c : Conn) (t : Table)
    → c.transaction ≡ some t
    → (c' : Conn) × (commit_conn c ≡ some c') × (c'.transaction ≡ none) × (c'.table ≡ t)
commits_conn c t h = (record { table = t; transaction = none }, rw h refl, refl, refl)

abbrev conn_IsTransactional : IsTransactional table_sqlite contents
conn_IsTransactional = record {
  begins = begins_conn;
  executes = executes_conn;
  commits = commits_conn;
}

-- Only a line that begins with a brace is JSON here.
abbrev from_str : Text → Option Value
from_str s =
    if starts_with s (codes "{")
    then some (obj (Fields.field (codes "timestamp") (str s) end))
    else none

abbrev stored : Bytes
stored = codes "{a}\n\nbad\r\n{b}"

abbrev path : Text
path = codes "data/raw/2026/06/22/08/55/03/sshd.jsonl"

abbrev relative_name : Text
relative_name = codes "raw/2026/06/22/08/55/03/sshd.jsonl"

abbrev read : Text → Option Bytes
read name = some stored

abbrev fields : List Text
fields = codes "timestamp" ∷ codes "byte_offset" ∷ []

abbrev empty_db : IndexDb Conn
empty_db = new_db (codes "data") fields

abbrev lines : List (ℕ × Text)
lines = (0, codes "{a}") ∷ (4, []) ∷ (5, codes "bad") ∷ (10, codes "{b}") ∷ []

stored-lines : lines_of stored ≡ some lines
unfolding lines_of split_line from_utf8 trim_newlines
stored-lines = refl

bucket_of-path : bucket_of path ≡ codes "2026/06/22/08"
unfolding bucket_of derive_bucket split is_ascii_digit
bucket_of-path = refl

abbrev opened : IndexDb Conn
opened = record empty_db {
  connections =
      insert (codes "2026/06/22/08")
        (record { conn = record { table = []; transaction = none }; last_write = 7 }) empty_map;
}

empty_db-opened : open_bucket 7 empty_db (bucket_of path) ≡ some opened
unfolding bucket_of derive_bucket split is_ascii_digit open_bucket new_db
empty_db-opened = refl

abbrev table : Table
table = (codes "{a}" ∷ codes "0" ∷ []) ∷ (codes "{b}" ∷ codes "10" ∷ []) ∷ []

opened-saved : saved_in contents (bucket_of path) opened ≡ some []
unfolding bucket_of derive_bucket split is_ascii_digit new_db saved_in settled
opened-saved = refl

table-rows :
    apply_rows contents opened.insert_sql opened.index_fields
      (file_rows from_str (codes "data") fields path lines)
      []
    ≡ some table
unfolding new_db apply_rows file_rows rows_of parse_line relative_path decimal_from decimal
    row_values
table-rows = refl

abbrev indexed_db : IndexDb Conn
indexed_db = (index_file from_str (λ n. n) 1 read 7 empty_db path (codes "data")).db

index_file-all_rows_example :
    (saved_in contents (bucket_of path) indexed_db ≡ some table)
    × ((index_file from_str (λ n. n) 1 read 7 empty_db path (codes "data")).result
        ≡ ok (
          length (file_rows from_str (codes "data") fields path lines),
          file_misses from_str (codes "data") fields path lines,
        ))
unfolding new_db
index_file-all_rows_example =
    index_file-all_rows contents conn_IsTransactional from_str (λ n. n) 1 read 7 (codes "data")
      empty_db opened path stored lines [] table refl empty_db-opened opened-saved stored-lines
      table-rows

-- A row of the table.
abbrev IsRow : Table → List Text → Type 0
IsRow [] values = ⊥
IsRow (row ∷ t) values = (row ≡ values) ⊎ IsRow t values

IsRow-append :
    (inserted other : List Text) (t : Table)
    → IsRow (t ++ inserted ∷ []) other
    → IsRow t other ⊎ (other ≡ inserted)
IsRow-append inserted other [] (inl same) = inr (sym same)
IsRow-append inserted other [] (inr later) = elim later [ ]
IsRow-append inserted other (row ∷ t) (inl same) = inl (inl same)
IsRow-append inserted other (row ∷ t) (inr later) = elim (IsRow-append inserted other t later) [
  | inl h ↦ inl (inr h)
  | inr same ↦ inr same
]

IsRow-apply :
    (inserted other : List Text) (t t' : Table)
    → some (t ++ inserted ∷ []) ≡ some t'
    → IsRow t' other
    → IsRow t other ⊎ (other ≡ inserted)
IsRow-apply inserted other t t' go there =
    IsRow-append inserted other t
      (subst (λ x. IsRow x other) (sym (some-injective (t ++ inserted ∷ []) t' go)) there)

relative_name-same : relative_path (codes "data") path ≡ relative_name
unfolding relative_path split
relative_name-same = refl

abbrev last_row : List Text
last_row = codes "{b}" ∷ codes "10" ∷ []

index_file-resolve_example :
    IsRow [] last_row
    ⊎ ResolvesTo from_str fields read (codes "data") (relative_path (codes "data") path) last_row
unfolding new_db
index_file-resolve_example =
    index_file-resolve contents conn_IsTransactional IsRow from_str (λ n. n) 1 read 7 (codes "data")
      empty_db opened path stored lines [] table table last_row refl empty_db-opened opened-saved
      stored-lines table-rows (ap is_empty relative_name-same) refl IsRow-apply
      index_file-all_rows_example.0 (inr (inl refl))
