-- ===== src/Indexd/Db/Transactions.antt =====
-- What is assumed of transactions on a connection of the crate rusqlite, of which `insert_batch` of
-- src/indexd/src/db.rs makes one for each batch.
use headless_siem.Prelude.{◌≡◌, Text, Option, none, some, List, [], ◌∷◌}
use headless_siem.Prelude.Options.{◌>>=◌}
use headless_siem.Indexd.Parser.{Row}
use headless_siem.Indexd.Db.{Sqlite, row_values}

-- A connection is seen as the content of its database that is saved, and, while a transaction is
-- open, what the transaction has made of it. `apply` is the effect of a statement on a content;
-- `none` is its error.
pub record Contents (C D : Type 0) : Type 0 where
  pub saved : C → D
  pub inside : C → Option D
  pub apply : Text → List Text → D → Option D

-- A transaction begins, if none is open, at the content that is saved; a statement in it works on
-- what the ones before it have made; the end of it saves that, and leaves no transaction open.
pub record IsTransactional {C D : Type 0} (S : Sqlite C) (Q : Contents C D) : Type 0 where
  pub begins :
      (c : C)
      → Q.inside c ≡ none
      → (c' : C) × (S.begin c ≡ some c') × (Q.inside c' ≡ some (Q.saved c))
  pub executes :
      (sql : Text) (values : List Text) (c : C) (d d' : D)
      → Q.inside c ≡ some d
      → Q.apply sql values d ≡ some d'
      → (c' : C) × (S.execute c sql values ≡ some c') × (Q.inside c' ≡ some d')
  pub commits :
      (c : C) (d : D)
      → Q.inside c ≡ some d
      → (c' : C) × (S.commit c ≡ some c') × (Q.inside c' ≡ none) × (Q.saved c' ≡ d)

module _ {C D : Type 0} (Q : Contents C D) where
  -- What is saved, if no transaction is open.
  unfoldable pub settled : C → Option D
  settled c = elim (Q.inside c) [ none ↦ some (Q.saved c) | some d ↦ none ]

  -- The effect of some rows, one after the other.
  unfoldable pub apply_rows : Text → List Text → List Row → D → Option D
  apply_rows sql fields [] d = some d
  apply_rows sql fields (row ∷ rows) d =
      Q.apply sql (row_values fields row) d >>= λ d'. apply_rows sql fields rows d'
