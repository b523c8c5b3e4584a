-- ===== src/Indexd/Db.antt =====
-- src/indexd/src/db.rs, `IndexDb`: the open buckets, and the insertion of batches of rows.
pub mod Transactions
use headless_siem.Prelude.{
  ℕ, suc, ◌-◌, Text, codes, decimal, join_path, true, false, Option, none, some, List, [], ◌∷◌,
  ◌++◌, map, ◌==◌, nat_eq, list_eq, ltb, if◌then◌else◌, HashMap, insert, empty_map, retain, any,
}
use headless_siem.Prelude.Options.{◌>>=◌}
use headless_siem.Indexd.Parser.{Row}

-- The calls of the crate rusqlite on a connection; `none` is an error. `table_info` gives the
-- columns of `events`.
pub record Sqlite (C : Type 0) : Type 0 where
  pub open_path : Text → Option C
  pub execute_batch : C → Text → Option C
  pub table_info : C → Option (List Text)
  pub begin : C → Option C
  pub execute : C → Text → List Text → Option C
  pub commit : C → Option C

pub record BucketConn (C : Type 0) : Type 0 where
  pub conn : C
  pub last_write : ℕ

pub record IndexDb (C : Type 0) : Type 0 where
  pub index_dir : Text
  pub index_fields : List Text
  pub insert_sql : Text
  pub connections : HashMap Text (BucketConn C)

-- `join(", ")`
abbrev join_commas : List Text → Text
join_commas [] = []
join_commas (s ∷ []) = s
join_commas (s ∷ t ∷ rest) = s ++ codes ", " ++ join_commas (t ∷ rest)

-- `?i`, `?(i+1)`, and so on, one for each field.
numbered : ℕ → List Text → List Text
numbered i [] = []
numbered i (f ∷ fs) = (codes "?" ++ decimal i) ∷ numbered (suc i) fs

insert_statement : List Text → Text
unfolding numbered
insert_statement fields =
    codes "INSERT OR IGNORE INTO events ("
    ++ join_commas fields
    ++ codes ") VALUES ("
    ++ join_commas (numbered 1 fields)
    ++ codes ")"

unfoldable pub new_db : {C : Type 0} → Text → List Text → IndexDb C
unfolding insert_statement
new_db data_dir fields = record {
  index_dir = join_path data_dir (codes "index");
  index_fields = fields;
  insert_sql = insert_statement fields;
  connections = empty_map;
}

-- `replace('/', "-")`
abbrev slashes_to_dashes : Text → Text
slashes_to_dashes s = map (λ c. if c == b'/' then b'-' else c) s

-- The file of a bucket, under the directory of the index.
unfoldable pub bucket_file : Text → Text
bucket_file bucket = slashes_to_dashes bucket ++ codes ".db"

column_def : Text → Text
column_def f =
    if f == codes "byte_offset"
    then f ++ codes " INTEGER NOT NULL DEFAULT 0"
    else f ++ codes " TEXT NOT NULL DEFAULT ''"

create_table : List Text → Text
unfolding column_def
create_table fields =
    codes "CREATE TABLE IF NOT EXISTS events ("
    ++ join_commas (map column_def fields)
    ++ codes ", UNIQUE(raw_file, byte_offset))"

create_index : Text → Text
create_index f =
    codes "CREATE INDEX IF NOT EXISTS idx_events_" ++ f ++ codes " ON events(" ++ f ++ codes ")"

-- An error of a statement that the code only logs, or ignores.
abbrev or_unchanged {ℓ} : {C : Type ℓ} → C → Option C → C
or_unchanged c none = c
or_unchanged c (some c') = c'

-- A row's value for a field; the empty text where there is none.
abbrev or_empty : Option Text → Text
or_empty none = []
or_empty (some s) = s

unfoldable pub row_values : List Text → Row → List Text
row_values fields row = map (λ f. or_empty (row f)) fields

module _ {C : Type 0} ⦃S : Sqlite C⦄ where
  add_columns : List Text → List Text → C → C
  unfolding column_def
  add_columns existing [] c = c
  add_columns existing (f ∷ fs) c = add_columns existing fs (elim (any (λ e. e == f) existing) [
    | true ↦ c
    | false ↦
        or_unchanged c (S.execute_batch c (codes "ALTER TABLE events ADD COLUMN " ++ column_def f))
  ])

  create_indexes : List Text → C → C
  unfolding create_index
  create_indexes [] c = c
  create_indexes (f ∷ fs) c = create_indexes fs (elim (f == codes "byte_offset") [
    | true ↦ c
    | false ↦ or_unchanged c (S.execute_batch c (create_index f))
  ])

  -- The connection of a bucket that is not open yet, with its schema.
  prepare : Text → List Text → Option C
  unfolding create_table add_columns create_indexes
  prepare path fields = do
    c ← S.open_path path
    c₁ ← S.execute_batch c (codes "PRAGMA journal_mode=WAL; PRAGMA synchronous=NORMAL;")
    c₂ ← S.execute_batch c₁ (create_table fields)
    existing ← S.table_info c₂
    some (create_indexes fields (add_columns existing fields c₂))

  -- The key is the bucket. `now` is the clock.
  unfoldable pub open_bucket : ℕ → IndexDb C → Text → Option (IndexDb C)
  unfolding bucket_file prepare
  open_bucket now db bucket = elim (db.connections bucket) [
    | some entry ↦ some db
    | none ↦ prepare (join_path db.index_dir (bucket_file bucket)) db.index_fields >>= λ c.
        some (record db {
          connections = insert bucket (record { conn = c; last_write = now }) db.connections;
        })
  ]

  unfoldable pub execute_rows : Text → List Text → List Row → C → Option C
  unfolding row_values
  execute_rows sql fields [] c = some c
  execute_rows sql fields (row ∷ rows) c =
      S.execute c sql (row_values fields row) >>= λ c'. execute_rows sql fields rows c'

  -- One transaction.
  unfoldable pub insert_rows : Text → List Text → List Row → C → Option C
  unfolding execute_rows
  insert_rows sql fields rows c =
      S.begin c >>= λ c₁. execute_rows sql fields rows c₁ >>= λ c₂. S.commit c₂

  -- On an error the transaction is dropped, so that the database stays as it was.
  unfoldable pub insert_batch : ℕ → IndexDb C → Text → List Row → Option (IndexDb C)
  unfolding insert_rows
  insert_batch now db bucket_key [] = some db
  insert_batch now db bucket_key (row ∷ rows) = db.connections bucket_key >>= λ entry.
      insert_rows db.insert_sql db.index_fields (row ∷ rows) entry.conn >>= λ c. some (record db {
        connections = insert bucket_key (record { conn = c; last_write = now }) db.connections;
      })

-- What is kept are the connections that were written to less than `idle_after` ago. The
-- `PRAGMA journal_mode=DELETE` and the keys that are returned for the log are left out.
unfoldable pub evict_idle : {C : Type 0} → ℕ → ℕ → IndexDb C → IndexDb C
evict_idle now idle_after db = record db {
  connections = retain (λ e. ltb (now - e.last_write) idle_after) db.connections;
}

unfoldable pub close_all : {C : Type 0} → IndexDb C → IndexDb C
close_all db = record db { connections = empty_map }
