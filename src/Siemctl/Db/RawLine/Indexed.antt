-- ===== src/Siemctl/Db/RawLine/Indexed.antt =====
-- src/siemctl/src/db.rs, `resolve_raw_line`, on the rows that `index_file` of src/indexd/src/parser.rs
-- stores.
use headless_siem.Prelude.{
  ℕ, zero, suc, ◌≡◌, refl, ap, ◌∙◌, subst, Text, codes, decimal, false, Option, none, some, List,
  [], ◌∷◌, ◌++◌, append_assoc, length, length-append, ◌⊎◌, inl, inr, sym, drop, drop-append, Every,
  arith, is_empty,
}
use mathlib.Core.Option.{some-injective}
use headless_siem.Prelude.Results.{ok}
use headless_siem.Json.{Json}
use headless_siem.Bytes.{Bytes, split_line, from_utf8, trim_newlines}
use headless_siem.Indexd.Parser.{Row, parse_line}
use headless_siem.Indexd.Parser.Mandatory.{parse_line-mandatory}
use headless_siem.Indexd.Files.Lines.{lines_from, lines_of, lines_from-FirstLine, rows_of, with_row}
use headless_siem.Prelude.Options.{bind-steps}
use headless_siem.Indexd.Db.{Sqlite, IndexDb, open_bucket, row_values}
use headless_siem.Indexd.Db.Transactions.{Contents, IsTransactional, apply_rows}
use headless_siem.Indexd.Files.{index_file, bucket_of, relative_path}
use headless_siem.Indexd.Files.Runs.{saved_in}
use headless_siem.Indexd.Files.Whole.{file_rows, index_file-all_rows}
use headless_siem.Siemctl.Db.RawLine.{not_empty, line_at, resolve_raw_line, joined}

split_line-append : (s : Bytes) → (split_line s).0 ++ (split_line s).1 ≡ s
unfolding split_line
split_line-append [] = refl
split_line-append (b ∷ s) = ground (arith, split_line-append s)

-- What is read at the offset of a line is the line, if it is not empty.
abbrev ReadsBack : Bytes → ℕ × Text → Type 0
ReadsBack content (offset, []) = Unit
ReadsBack content (offset, c ∷ line) = line_at content offset ≡ ok (c ∷ line)

reads_trimmed :
    (content : Bytes) (offset : ℕ) (line : Text)
    → line_at content offset ≡ not_empty line
    → ReadsBack content (offset, line)
reads_trimmed content offset [] h = tt
reads_trimmed content offset (c ∷ line) h = h

reads_first :
    (content : Bytes) (offset : ℕ) (line : Text)
    → from_utf8 (split_line (drop offset content)).0 ≡ some line
    → ReadsBack content (offset, trim_newlines line)
unfolding line_at
reads_first content offset line h =
    reads_trimmed content offset (trim_newlines line) (rw (h, line_at) refl)

lines_from-ReadsBack :
    (fuel : ℕ) (before content : Bytes) (lines : List (ℕ × Text))
    → lines_from fuel (length before) content ≡ some lines
    → Every (ReadsBack (before ++ content)) lines
lines_from-ReadsBack zero before content lines h =
    subst (Every (ReadsBack (before ++ content))) (some-injective [] lines (unfold lines_from in h))
      tt
lines_from-ReadsBack (suc fuel) before [] lines h =
    subst (Every (ReadsBack (before ++ []))) (some-injective [] lines (unfold lines_from in h)) tt
lines_from-ReadsBack (suc fuel) before (b ∷ content) lines h =
    let l = lines_from-FirstLine fuel (length before) b content lines h in
    let whole = before ++ b ∷ content in
    let bytes = (split_line (b ∷ content)).0 in
    let rest = (split_line (b ∷ content)).1 in
    let head =
      reads_first whole (length before) l.line
        (ap (λ s. from_utf8 (split_line s).0) (drop-append before (b ∷ content)) ∙ l.decoded) in
    let later =
      lines_from-ReadsBack fuel (before ++ bytes) rest l.more
        (ap (λ n. lines_from fuel n rest) (length-append before bytes) ∙ l.behind) in
    let same =
      append_assoc before bytes rest
      ∙ ap (λ (s : Bytes). before ++ s) (split_line-append (b ∷ content)) in
    subst (Every (ReadsBack whole)) l.first
      (head, subst (λ w. Every (ReadsBack w) l.more) same later)

module _ {V : Type 0} ⦃J : Json V⦄ (from_str : Text → Option V) (index_fields : List Text)
    (read : Text → Option Bytes) (data_dir raw_file : Text) where
  -- A row holds the place of a line, and `resolve_raw_line` finds there the line that was parsed.
  unfoldable pub Resolves : Row → Type 0
  Resolves row =
      (offset : ℕ) × (line : Text) × (row (codes "byte_offset") ≡ some (decimal offset))
      × (row (codes "raw_file") ≡ some raw_file)
      × (resolve_raw_line read data_dir raw_file offset ≡ ok line)
      × (parse_line from_str line offset raw_file index_fields ≡ some row)

  with_row-Resolves :
      (content : Bytes) (offset c : ℕ) (line : Text) (r : Option Row) (rows : List Row)
      → is_empty raw_file ≡ false
      → read (joined data_dir raw_file) ≡ some content
      → line_at content offset ≡ ok (c ∷ line)
      → parse_line from_str (c ∷ line) offset raw_file index_fields ≡ r
      → Every Resolves rows
      → Every Resolves (with_row r rows)
  unfolding Resolves resolve_raw_line
  with_row-Resolves content offset c line none rows named found here parsed rest = rest
  with_row-Resolves content offset c line (some row) rows named found here parsed rest =
      let fields =
        parse_line-mandatory from_str (c ∷ line) offset raw_file index_fields row parsed in
      ((offset, c ∷ line, fields.0, fields.1, rw named rw found here, parsed), rest)

  rows_of-Resolves :
      (content : Bytes) (lines : List (ℕ × Text))
      → is_empty raw_file ≡ false
      → read (joined data_dir raw_file) ≡ some content
      → Every (ReadsBack content) lines
      → Every Resolves (rows_of from_str index_fields raw_file lines)
  unfolding rows_of
  rows_of-Resolves content [] named found h = tt
  rows_of-Resolves content ((offset, []) ∷ lines) named found h =
      rows_of-Resolves content lines named found h.1
  rows_of-Resolves content ((offset, c ∷ line) ∷ lines) named found h =
      with_row-Resolves content offset c line
        (parse_line from_str (c ∷ line) offset raw_file index_fields)
        (rows_of from_str index_fields raw_file lines) named found h.0 refl
        (rows_of-Resolves content lines named found h.1)

  rows_of-resolve :
      (content : Bytes) (lines : List (ℕ × Text))
      → is_empty raw_file ≡ false
      → read (joined data_dir raw_file) ≡ some content
      → lines_of content ≡ some lines
      → Every Resolves (rows_of from_str index_fields raw_file lines)
  unfolding lines_of
  rows_of-resolve content lines named found whole =
      rows_of-Resolves content lines named found
        (lines_from-ReadsBack (suc (length content)) [] content lines whole)

  -- The values of a row that resolves.
  unfoldable pub ResolvesTo : List Text → Type 0
  ResolvesTo values = (row : Row) × (values ≡ row_values index_fields row) × Resolves row

module _ {C D : Type 0} (Q : Contents C D) (Holds : D → List Text → Type 0) (sql : Text)
    (adds : (values other : List Text) (d d' : D)
      → Q.apply sql values d ≡ some d'
      → Holds d' other
      → Holds d other ⊎ (other ≡ values)) where
  apply_rows-Holds :
      (P : Row → Type 0) (fields : List Text) (rows : List Row) (d d' : D) (other : List Text)
      → Every P rows
      → apply_rows Q sql fields rows d ≡ some d'
      → Holds d' other
      → Holds d other ⊎ ((row : Row) × (other ≡ row_values fields row) × P row)
  unfolding apply_rows
  apply_rows-Holds P fields [] d d' other h go there =
      inl (subst (λ x. Holds x other) (sym (some-injective d d' go)) there)
  apply_rows-Holds P fields (row ∷ rows) d d' other h go there =
      let values = row_values fields row in
      let (e, first, later) =
        bind-steps (Q.apply sql values d) (λ e. apply_rows Q sql fields rows e) d' go in
      elim (apply_rows-Holds P fields rows e d' other h.1 later there) [
        | inr found ↦ inr found
        | inl earlier ↦ elim (adds values other d e first earlier) [
          | inl at_start ↦ inl at_start
          | inr same ↦ inr (row, same, h.0)
        ]
      ]

module _ {V C D : Type 0} ⦃J : Json V⦄ ⦃S : Sqlite C⦄ (Q : Contents C D) (T : IsTransactional S Q)
    (Holds : D → List Text → Type 0) (from_str : Text → Option V) (clock : ℕ → ℕ) (batch_size : ℕ)
    (read : Text → Option Bytes) (now : ℕ) (data_dir : Text) where
  -- Let transactions be as the database documents them, and let none fail to begin or to commit; let
  -- the file be there, all its lines be UTF-8, its bucket be opened with the content `d₀` saved, and
  -- let the insertion of its rows one after the other succeed on `d₀`, where an insertion adds the
  -- values of its row or nothing; let the name of the file below the data directory not be empty, and
  -- `siemctl` find the same bytes under it. Then all values that are saved in the bucket's database
  -- behind `index_file`, unless `d₀` held them, are those of a row with this name and an offset, at
  -- which `resolve_raw_line` of `siemctl` reads a line back, and this line is the one that the row was
  -- made of.
  pub index_file-resolve :
      (db db' : IndexDb C) (file_path : Text) (content : Bytes) (lines : List (ℕ × Text))
      (d₀ d after : D) (values : List Text)
      → read file_path ≡ some content
      → open_bucket now db (bucket_of file_path) ≡ some db'
      → saved_in Q (bucket_of file_path) db' ≡ some d₀
      → lines_of content ≡ some lines
      → apply_rows Q db'.insert_sql db'.index_fields
          (file_rows from_str data_dir db'.index_fields file_path lines)
          d₀
        ≡ some d
      → is_empty (relative_path data_dir file_path) ≡ false
      → read (joined data_dir (relative_path data_dir file_path)) ≡ some content
      → ((inserted other : List Text) (e e' : D)
          → Q.apply db'.insert_sql inserted e ≡ some e'
          → Holds e' other
          → Holds e other ⊎ (other ≡ inserted))
      → saved_in Q
          (bucket_of file_path)
          (index_file from_str clock batch_size read now db file_path data_dir).db
        ≡ some after
      → Holds after values
      → Holds d₀ values
        ⊎ ResolvesTo from_str db'.index_fields read data_dir
            (relative_path data_dir file_path)
            values
  unfolding file_rows ResolvesTo
  index_file-resolve db db' file_path content lines d₀ d after values found opened before whole go
        named below adds left there =
      let raw_file = relative_path data_dir file_path in
      let stored =
        index_file-all_rows Q T from_str clock batch_size read now data_dir db db' file_path content
          lines d₀ d found opened before whole go in
      apply_rows-Holds Q Holds db'.insert_sql adds
        (Resolves from_str db'.index_fields read data_dir raw_file) db'.index_fields
        (rows_of from_str db'.index_fields raw_file lines) d₀ d values
        (rows_of-resolve from_str db'.index_fields read data_dir raw_file content lines named below
          whole)
        go (subst (λ x. Holds x values) (some-injective after d (sym left ∙ stored.0)) there)
