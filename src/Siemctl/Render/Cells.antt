-- ===== src/Siemctl/Render/Cells.antt =====
-- src/siemctl/src/render.rs, `emit_tsv`: a value does not break the columns of its row.
use headless_siem.Prelude.{
  ℕ, ◌+◌, ◌≡◌, refl, ap, ◌∙◌, Text, codes, decimal, Bool, true, false, not, ◌||◌, some, List, [],
  ◌∷◌, all, Every, split, is_ascii_digit, pos, negsuc, ◌==◌, nat_eq, list_eq, arith, append_assoc,
  if◌then◌else◌,
}
use headless_siem.Prelude.Numerals.{decimal-digits, split-first, split-only}
use headless_siem.Siemctl.Render.{
  Val, str, real, int, bool, null, Record, blank_breaks, to_tsv, find_val, cell, cells, join,
  tsv_row,
}

-- No tab, newline or carriage return.
abbrev is_plain_char : ℕ → Bool
is_plain_char c = not (c == 9 || c == 10 || c == 13)

-- The text of a floating-point number has no such character.
abbrev pub PlainVal : Val → Type 0
PlainVal (real f) = all is_plain_char f ≡ true
PlainVal _ = Unit

all-blank_breaks : (s : Text) → all is_plain_char (blank_breaks s) ≡ true
all-blank_breaks [] = refl
all-blank_breaks (c ∷ s) = ground (arith, all-blank_breaks s)

all-digits : (s : Text) → all is_ascii_digit s ≡ true → all is_plain_char s ≡ true
unfolding is_ascii_digit
all-digits [] h = refl
all-digits (c ∷ s) h = ground (arith, h, all-digits s)

all-to_tsv : (v : Val) → PlainVal v → all is_plain_char (to_tsv v) ≡ true
unfolding to_tsv
all-to_tsv (str s) h = all-blank_breaks s
all-to_tsv (int (pos n)) h = all-digits (decimal n) (decimal-digits n)
all-to_tsv (int (negsuc n)) h = all-digits (decimal (n + 1)) (decimal-digits (n + 1))
all-to_tsv (real f) h = h
all-to_tsv (bool true) h = refl
all-to_tsv (bool false) h = refl
all-to_tsv null h = refl

abbrev pub PlainRecord : Record → Type 0
PlainRecord rec = Every (λ p. PlainVal p.1) rec

all-cell :
    (rec : Record) (key : Text)
    → PlainRecord rec
    → all is_plain_char (cell (find_val rec key)) ≡ true
all-cell [] key h = refl
all-cell ((k, v) ∷ rec) key h =
    elim (k == key)
      as (λ b. all is_plain_char (cell (if b then some v else find_val rec key)) ≡ true) [
        | true ↦ all-to_tsv v h.0
        | false ↦ all-cell rec key h.1
      ]

-- The parts between tabs are the cells.
split-cells :
    (c : Text) (cols : List Text) (rec : Record)
    → PlainRecord rec
    → split 9 (join (codes "\t") (cells (c ∷ cols) rec)) ≡ cells (c ∷ cols) rec
unfolding cells
split-cells c [] rec h = split-only is_plain_char 9 refl (cell (find_val rec c)) (all-cell rec c h)
split-cells c (d ∷ cols) rec h =
    ap (split 9)
      (append_assoc (cell (find_val rec c)) (codes "\t") (join (codes "\t") (cells (d ∷ cols) rec)))
    ∙ split-first is_plain_char 9 refl (cell (find_val rec c))
        (join (codes "\t") (cells (d ∷ cols) rec)) (all-cell rec c h)
    ∙ ap (λ (l : List Text). cell (find_val rec c) ∷ l) (split-cells d cols rec h)

-- A row of at least one column is taken apart at its tabs into the cells of its columns, whatever the
-- texts of the record hold, if the texts of its floating-point numbers have no tab, newline or carriage
-- return.
pub split-tsv_row :
    (c : Text) (cols : List Text) (rec : Record)
    → PlainRecord rec
    → split 9 (tsv_row (c ∷ cols) rec) ≡ cells (c ∷ cols) rec
unfolding tsv_row
split-tsv_row c cols rec h = split-cells c cols rec h
