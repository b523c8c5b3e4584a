-- ===== src/Indexd/Files/Batches.antt =====
-- src/indexd/src/parser.rs, `index_file`: the batches add up to all the rows of the file.
use headless_siem.Prelude.{
  ℕ, zero, suc, ◌+◌, ◌<◌, ◌≡◌, refl, sym, ap, ◌∙◌, Text, Option, none, some, List, [], ◌∷◌, ◌++◌,
  append-nil, append_assoc, length, arith, leb, ap₂, subst, Bool-cases, inl, inr,
}
use mathlib.Core.Option.{some-injective}
use headless_siem.Prelude.Results.{ok}
use headless_siem.Json.{Json}
use headless_siem.Bytes.{Bytes, split_line, trim_newlines}
use headless_siem.Indexd.Parser.{Row, parse_line}
use headless_siem.Indexd.Db.{Sqlite, IndexDb}
use headless_siem.Indexd.Db.Transactions.{Contents, IsTransactional}
use headless_siem.Indexd.Files.{
  Progress, Outcome, flush_full, add_row, take_text, take_line, finish, read_loop, index_content,
}
use headless_siem.Indexd.Files.Lines.{
  lines_from, lines_of, lines_from-FirstLine, split_line-shorter, with_row, with_miss, rows_of,
  misses_of,
}
use headless_siem.Indexd.Files.Runs.{run, run-nothing, saved_in, run-front, insert_batch-run}

with_row-length :
    (r : Option Row) (rest : List Row)
    → length (with_row r []) + length rest ≡ length (with_row r rest)
with_row-length none rest = omega arith
with_row-length (some row) rest = omega arith

with_miss-add : (r : Option Row) (n : ℕ) → with_miss r 0 + n ≡ with_miss r n
with_miss-add none n = omega arith
with_miss-add (some row) n = omega arith

module _ {V C D : Type 0} ⦃J : Json V⦄ ⦃S : Sqlite C⦄ (from_str : Text → Option V) (clock : ℕ → ℕ)
    (batch_size : ℕ) (index_fields : List Text) (raw_file bucket_key : Text) (Q : Contents C D)
    (T : IsTransactional S Q) where
  -- What would be saved for the bucket behind the batch and some more rows.
  abbrev pending : Progress C → List Row → Option D
  pending p rows = run Q bucket_key p.db (p.batch ++ rows)

  -- A step that has not failed, with the numbers that it has counted up to, and what is to come.
  record Follows (r : Option (Progress C)) (rest : List Row) (d : D)
      (indexed skipped byte_offset : ℕ) : Type 0 where
    next : Progress C
    is_next : r ≡ some next
    still : pending next rest ≡ some d
    is_indexed : next.indexed ≡ indexed
    is_skipped : next.skipped ≡ skipped
    is_offset : next.byte_offset ≡ byte_offset

  flush_full-Follows :
      (p : Progress C) (rest : List Row) (d : D)
      → pending p rest ≡ some d
      → Follows
          (flush_full from_str clock batch_size index_fields raw_file bucket_key p)
          rest
          d
          p.indexed
          p.skipped
          p.byte_offset
  unfolding flush_full
  flush_full-Follows p rest d h = elim (Bool-cases (leb batch_size (length p.batch))) [
    | inl e ↦
        let (at, front) = run-front Q bucket_key p.db p.batch rest d h in
        let (db', inserted, runs) =
          insert_batch-run Q bucket_key T (clock p.indexed) p.db p.batch at front in
        rw (e, flush_full)
          record {
            next = record p { db = db'; batch = [] };
            is_next = rw inserted refl;
            still = runs rest ∙ h;
            is_indexed = refl;
            is_skipped = refl;
            is_offset = refl;
          }
    | inr e ↦
        rw (e, flush_full)
          record {
            next = p;
            is_next = refl;
            still = h;
            is_indexed = refl;
            is_skipped = refl;
            is_offset = refl;
          }
  ]

  add_row-Follows :
      (p : Progress C) (row : Option Row) (rest : List Row) (d : D)
      → pending p (with_row row rest) ≡ some d
      → Follows
          (add_row from_str clock batch_size index_fields raw_file bucket_key p row)
          rest
          d
          (p.indexed + length (with_row row []))
          (p.skipped + with_miss row 0)
          p.byte_offset
  unfolding add_row
  add_row-Follows p none rest d h = record {
    next = record p { skipped = p.skipped + 1 };
    is_next = refl;
    still = h;
    is_indexed = omega arith;
    is_skipped = refl;
    is_offset = refl;
  }
  add_row-Follows p (some row) rest d h =
      let p' = record p { batch = p.batch ++ row ∷ []; indexed = p.indexed + 1 } in
      let f =
        flush_full-Follows p' rest d
          (ap (run Q bucket_key p.db) (append_assoc p.batch (row ∷ []) rest) ∙ h) in
      record {
        next = f.next;
        is_next = f.is_next;
        still = f.still;
        is_indexed = f.is_indexed;
        is_skipped = omega (arith, f.is_skipped);
        is_offset = f.is_offset;
      }

  abbrev rows : List (ℕ × Text) → List Row
  rows lines = rows_of from_str index_fields raw_file lines

  abbrev misses : List (ℕ × Text) → ℕ
  misses lines = misses_of from_str index_fields raw_file lines

  take_text-Follows :
      (offset : ℕ) (p : Progress C) (line : Text) (lines : List (ℕ × Text)) (d : D)
      → pending p (rows ((offset, line) ∷ lines)) ≡ some d
      → Follows
          (take_text from_str clock batch_size index_fields raw_file bucket_key offset p line)
          (rows lines)
          d
          (p.indexed + length (rows ((offset, line) ∷ [])))
          (p.skipped + misses ((offset, line) ∷ []))
          p.byte_offset
  unfolding take_text rows_of misses_of
  take_text-Follows offset p [] lines d h = record {
    next = p;
    is_next = refl;
    still = h;
    is_indexed = omega arith;
    is_skipped = omega arith;
    is_offset = refl;
  }
  take_text-Follows offset p (x ∷ line) lines d h =
      add_row-Follows p (parse_line from_str (x ∷ line) offset raw_file index_fields) (rows lines) d
        h

  -- The counts add up, a line at a time.
  length-rows :
      (line : ℕ × Text) (lines : List (ℕ × Text))
      → length (rows (line ∷ [])) + length (rows lines) ≡ length (rows (line ∷ lines))
  unfolding rows_of
  length-rows (offset, []) lines = omega arith
  length-rows (offset, x ∷ line) lines =
      with_row-length (parse_line from_str (x ∷ line) offset raw_file index_fields) (rows lines)

  misses-head :
      (line : ℕ × Text) (lines : List (ℕ × Text))
      → misses (line ∷ []) + misses lines ≡ misses (line ∷ lines)
  unfolding misses_of
  misses-head (offset, []) lines = omega arith
  misses-head (offset, x ∷ line) lines =
      with_miss-add (parse_line from_str (x ∷ line) offset raw_file index_fields) (misses lines)

  -- What the loop ends with.
  unfoldable pub Complete : Outcome C → D → ℕ → ℕ → Type 0
  Complete o d indexed skipped =
      (saved_in Q bucket_key o.db ≡ some d) × (o.result ≡ ok (indexed, skipped))

  finish-Complete :
      (p : Progress C) (d : D)
      → pending p [] ≡ some d
      → Complete
          (finish from_str clock batch_size index_fields raw_file bucket_key p)
          d
          p.indexed
          p.skipped
  unfolding finish Complete
  finish-Complete p d h =
      let (db', inserted, runs) =
        insert_batch-run Q bucket_key T (clock p.indexed) p.db p.batch d
          (ap (run Q bucket_key p.db) (sym (append-nil p.batch)) ∙ h) in
      rw (inserted, finish) (sym (run-nothing Q bucket_key db') ∙ runs [] ∙ h, refl)

  take_line-Follows :
      (bytes : Bytes) (line : Text) (p : Progress C) (lines : List (ℕ × Text)) (d : D)
      → pending p (rows ((p.byte_offset, trim_newlines line) ∷ lines)) ≡ some d
      → Follows
          (take_line from_str clock batch_size index_fields raw_file bucket_key bytes line p)
          (rows lines)
          d
          (p.indexed + length (rows ((p.byte_offset, trim_newlines line) ∷ [])))
          (p.skipped + misses ((p.byte_offset, trim_newlines line) ∷ []))
          (p.byte_offset + length bytes)
  unfolding take_line
  take_line-Follows bytes line p lines d h =
      take_text-Follows p.byte_offset (record p { byte_offset = p.byte_offset + length bytes })
        (trim_newlines line) lines d h

  Complete-counts :
      (o : Outcome C) (d : D) (m n m' n' : ℕ)
      → m ≡ m'
      → n ≡ n'
      → Complete o d m n
      → Complete o d m' n'
  unfolding Complete
  Complete-counts o d m n m' n' p q h = (h.0, h.1 ∙ ap₂ (λ x y. ok (x, y)) p q)

  end-Complete :
      (p : Progress C) (d : D)
      → pending p (rows []) ≡ some d
      → Complete
          (finish from_str clock batch_size index_fields raw_file bucket_key p)
          d
          (p.indexed + length (rows []))
          (p.skipped + misses [])
  unfolding rows_of misses_of
  end-Complete p d h =
      Complete-counts (finish from_str clock batch_size index_fields raw_file bucket_key p) d
        p.indexed p.skipped (p.indexed + 0) (p.skipped + 0) (omega arith) (omega arith)
        (finish-Complete p d h)

  read_loop-Complete :
      (fuel : ℕ) (content : Bytes) (p : Progress C) (lines : List (ℕ × Text)) (d : D)
      → length content < fuel
      → lines_from fuel p.byte_offset content ≡ some lines
      → pending p (rows lines) ≡ some d
      → Complete
          (read_loop from_str clock batch_size index_fields raw_file bucket_key fuel content p)
          d
          (p.indexed + length (rows lines))
          (p.skipped + misses lines)
  unfolding read_loop
  read_loop-Complete zero content p lines d lt h go = absurd (omega arith)
  read_loop-Complete (suc fuel) [] p lines d lt h go =
      let none_left = some-injective [] lines (unfold lines_from in h) in
      subst
        (λ ls.
          pending p (rows ls) ≡ some d
          → Complete (finish from_str clock batch_size index_fields raw_file bucket_key p) d
              (p.indexed + length (rows ls)) (p.skipped + misses ls))
        none_left (end-Complete p d) go
  read_loop-Complete (suc fuel) (b ∷ content) p lines d lt h go =
      let l = lines_from-FirstLine fuel p.byte_offset b content lines h in
      let bytes = (split_line (b ∷ content)).0 in
      let f =
        take_line-Follows bytes l.line p l.more d (ap (λ ls. pending p (rows ls)) l.first ∙ go) in
      let rest =
        read_loop-Complete fuel (split_line (b ∷ content)).1 f.next l.more d
          (omega (arith, split_line-shorter b content))
          (ap (λ n. lines_from fuel n (split_line (b ∷ content)).1) f.is_offset ∙ l.behind)
          f.still in
      rw (l.decoded, read_loop)
        (rw (f.is_next, read_loop)
          (Complete-counts
            (read_loop from_str clock batch_size index_fields raw_file bucket_key fuel
              (split_line (b ∷ content)).1 f.next)
            d (f.next.indexed + length (rows l.more)) (f.next.skipped + misses l.more)
            (p.indexed + length (rows lines)) (p.skipped + misses lines)
            (omega (
              arith,
              f.is_indexed,
              length-rows (p.byte_offset, trim_newlines l.line) l.more,
              ap (λ ls. length (rows ls)) l.first,
            ))
            (omega (
              arith,
              f.is_skipped,
              misses-head (p.byte_offset, trim_newlines l.line) l.more,
              ap misses l.first,
            ))
            rest))

  pub index_content-Complete :
      (db : IndexDb C) (content : Bytes) (lines : List (ℕ × Text)) (d : D)
      → lines_of content ≡ some lines
      → run Q bucket_key db (rows lines) ≡ some d
      → Complete
          (index_content from_str clock batch_size index_fields raw_file bucket_key db content)
          d
          (length (rows lines))
          (misses lines)
  unfolding index_content lines_of
  index_content-Complete db content lines d h go =
      Complete-counts
        (index_content from_str clock batch_size index_fields raw_file bucket_key db content) d
        (0 + length (rows lines)) (0 + misses lines) (length (rows lines)) (misses lines)
        (omega arith) (omega arith)
        (read_loop-Complete (suc (length content)) content
          (record { db = db; batch = []; indexed = 0; skipped = 0; byte_offset = 0 }) lines d
          (omega arith) h go)
