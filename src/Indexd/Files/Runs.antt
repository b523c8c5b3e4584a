-- ===== src/Indexd/Files/Runs.antt =====
-- src/indexd/src/db.rs, `insert_batch`: what a batch does to the database of its bucket, by the laws
-- of transactions.
use headless_siem.Prelude.{
  ℕ, ◌≡◌, refl, sym, ap, ◌∙◌, Text, Option, none, some, List, [], ◌∷◌, ◌++◌, insert, ==_refl,
  nat_eq, list_eq,
}
use mathlib.Core.Option.{some-ne-none, some-injective}
use headless_siem.Prelude.Options.{◌>>=◌, bind_congr, bind_assoc, bind_some, bind-first, bind-steps}
use headless_siem.Indexd.Parser.{Row}
use headless_siem.Indexd.Db.{
  Sqlite, BucketConn, IndexDb, execute_rows, insert_rows, insert_batch, row_values,
}
use headless_siem.Indexd.Db.Transactions.{Contents, IsTransactional, settled, apply_rows}

module _ {C D : Type 0} (Q : Contents C D) (bucket_key : Text) where
  abbrev pub settled_of : Option (BucketConn C) → Option D
  settled_of none = none
  settled_of (some entry) = settled Q entry.conn

  -- What is saved in the bucket's database, if it is open and has no transaction under way.
  unfoldable pub saved_in : IndexDb C → Option D
  saved_in db = settled_of (db.connections bucket_key)

  -- What some more rows would make of it.
  unfoldable pub run : IndexDb C → List Row → Option D
  unfolding saved_in
  run db rows = saved_in db >>= λ d. apply_rows Q db.insert_sql db.index_fields rows d

  pub run-nothing : (db : IndexDb C) → run db [] ≡ saved_in db
  unfolding run apply_rows
  run-nothing db = bind_some (saved_in db)

  pub run-saved :
      (db : IndexDb C) (rows : List Row) (d : D)
      → saved_in db ≡ some d
      → run db rows ≡ apply_rows Q db.insert_sql db.index_fields rows d
  unfolding run
  run-saved db rows d h = rw h refl

  apply_rows-append :
      (sql : Text) (fields : List Text) (rows more : List Row) (d : D)
      → apply_rows Q sql fields (rows ++ more) d
        ≡ (apply_rows Q sql fields rows d >>= λ d'. apply_rows Q sql fields more d')
  unfolding apply_rows
  apply_rows-append sql fields [] more d = refl
  apply_rows-append sql fields (row ∷ rows) more d =
      bind_congr (Q.apply sql (row_values fields row) d)
        (λ d'. apply_rows Q sql fields (rows ++ more) d')
        (λ d'. apply_rows Q sql fields rows d' >>= λ e. apply_rows Q sql fields more e)
        (apply_rows-append sql fields rows more)
      ∙ sym (
          bind_assoc (Q.apply sql (row_values fields row) d) (λ d'. apply_rows Q sql fields rows d')
            (λ d'. apply_rows Q sql fields more d'))

  run-append :
      (db : IndexDb C) (rows more : List Row)
      → run db (rows ++ more)
        ≡ (run db rows >>= λ d. apply_rows Q db.insert_sql db.index_fields more d)
  unfolding run
  run-append db rows more =
      bind_congr (saved_in db) (λ d. apply_rows Q db.insert_sql db.index_fields (rows ++ more) d)
        (λ d. apply_rows Q db.insert_sql db.index_fields rows d >>= λ d'.
          apply_rows Q db.insert_sql db.index_fields more d')
        (apply_rows-append db.insert_sql db.index_fields rows more)
      ∙ sym (
          bind_assoc (saved_in db) (λ d. apply_rows Q db.insert_sql db.index_fields rows d)
            (λ d. apply_rows Q db.insert_sql db.index_fields more d))

  -- A run over a list that succeeds has succeeded on each part at its front.
  pub run-front :
      (db : IndexDb C) (rows more : List Row) (d : D)
      → run db (rows ++ more) ≡ some d
      → (d' : D) × (run db rows ≡ some d')
  run-front db rows more d h =
      bind-first (run db rows) (λ e. apply_rows Q db.insert_sql db.index_fields more e) d
        (sym (run-append db rows more) ∙ h)

  settled_of-entry :
      (entry : Option (BucketConn C)) (d : D)
      → settled_of entry ≡ some d
      → (e : BucketConn C) × (entry ≡ some e) × (settled Q e.conn ≡ some d)
  settled_of-entry none d h = absurd (some-ne-none d (sym h))
  settled_of-entry (some e) d h = (e, refl, h)

  closed :
      (open_content : Option D) (saved d : D)
      → elim open_content as (λ _. Option D) [ none ↦ some saved | some _ ↦ none ] ≡ some d
      → (open_content ≡ none) × (saved ≡ d)
  closed none saved d h = (refl, some-injective saved d h)
  closed (some e) saved d h = absurd (some-ne-none d (sym h))

  settled-closed : (c : C) (d : D) → settled Q c ≡ some d → (Q.inside c ≡ none) × (Q.saved c ≡ d)
  unfolding settled
  settled-closed c d h = closed (Q.inside c) (Q.saved c) d h

  module _ ⦃S : Sqlite C⦄ (T : IsTransactional S Q) where
    execute_rows-inside :
        (sql : Text) (fields : List Text) (rows : List Row) (c : C) (d d' : D)
        → Q.inside c ≡ some d
        → apply_rows Q sql fields rows d ≡ some d'
        → (c' : C) × (execute_rows sql fields rows c ≡ some c') × (Q.inside c' ≡ some d')
    unfolding execute_rows apply_rows
    execute_rows-inside sql fields [] c d d' at go = (c, refl, at ∙ go)
    execute_rows-inside sql fields (row ∷ rows) c d d' at go =
        let values = row_values fields row in
        let (e, first, later) =
          bind-steps (Q.apply sql values d) (λ e. apply_rows Q sql fields rows e) d' go in
        let (c₁, executed, at₁) = T.executes sql values c d e at first in
        let (c₂, rest, at₂) = execute_rows-inside sql fields rows c₁ e d' at₁ later in
        (c₂, rw executed rest, at₂)

    insert_rows-settled :
        (sql : Text) (fields : List Text) (rows : List Row) (c : C) (d d' : D)
        → settled Q c ≡ some d
        → apply_rows Q sql fields rows d ≡ some d'
        → (c' : C) × (insert_rows sql fields rows c ≡ some c') × (settled Q c' ≡ some d')
    unfolding insert_rows settled
    insert_rows-settled sql fields rows c d d' at go =
        let (none_open, same) = settled-closed c d at in
        let (c₁, begun, at₁) = T.begins c none_open in
        let (c₂, executed, at₂) =
          execute_rows-inside sql fields rows c₁ d d' (at₁ ∙ ap some same) go in
        let (c₃, committed, none_left, at₃) = T.commits c₂ d' at₂ in
        (c₃, rw begun rw executed committed, rw (none_left, settled) (ap some at₃))

    insert_batch-open :
        (now : ℕ) (db : IndexDb C) (row : Row) (rows : List Row) (d d' : D)
        → saved_in db ≡ some d
        → apply_rows Q db.insert_sql db.index_fields (row ∷ rows) d ≡ some d'
        → (db' : IndexDb C) × (insert_batch now db bucket_key (row ∷ rows) ≡ some db')
          × ((more : List Row) → run db' more ≡ run db ((row ∷ rows) ++ more))
    unfolding insert_batch run saved_in
    insert_batch-open now db row rows d d' at go =
        let (e, found, at_e) = settled_of-entry (db.connections bucket_key) d at in
        let (c, inserted, at_c) =
          insert_rows-settled db.insert_sql db.index_fields (row ∷ rows) e.conn d d' at_e go in
        (
          record db {
            connections = insert bucket_key (record { conn = c; last_write = now }) db.connections;
          },
          rw found rw inserted refl,
          λ more. rw (==_refl bucket_key) rw at_c (
              sym (
                run-append db (row ∷ rows) more
                ∙ ap (λ r. r >>= λ x. apply_rows Q db.insert_sql db.index_fields more x)
                    (run-saved db (row ∷ rows) d at ∙ go))),
        )

    pub insert_batch-run :
        (now : ℕ) (db : IndexDb C) (batch : List Row) (d : D)
        → run db batch ≡ some d
        → (db' : IndexDb C) × (insert_batch now db bucket_key batch ≡ some db')
          × ((rows : List Row) → run db' rows ≡ run db (batch ++ rows))
    unfolding insert_batch run
    insert_batch-run now db [] d h = (db, refl, λ rows. refl)
    insert_batch-run now db (row ∷ rows) d h =
        let (e, at, go) =
          bind-steps (saved_in db) (λ x. apply_rows Q db.insert_sql db.index_fields (row ∷ rows) x)
            d h in
        insert_batch-open now db row rows e d at go
