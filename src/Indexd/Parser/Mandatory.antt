-- ===== src/Indexd/Parser/Mandatory.antt =====
-- src/indexd/src/parser.rs, `parse_line`: the fields that every row has.
use headless_siem.Prelude.{
  ℕ, ◌≡◌, refl, sym, ap, ◌∙◌, Text, codes, decimal, true, false, Bool-cases, inl, inr, Option, none,
  some, List, [], ◌∷◌, ◌==◌, nat_eq, list_eq, ==_of_ne,
}
use mathlib.Core.Bool.{true≢false}
use mathlib.Core.Option.{some-injective}
use headless_siem.Prelude.Options.{◌>>=◌, bind-steps}
use headless_siem.Json.{Json, get, get_str}
use headless_siem.Indexd.Parser.{
  Row, is_mandatory, insert_value, insert_fields, mandatory_fields, as_object, parse_line,
}

module _ {V : Type 0} ⦃J : Json V⦄ where
  insert_value-other :
      (f k : Text) (v : Option V) (row : Row) → (f == k) ≡ false → insert_value f v row k ≡ row k
  insert_value-other f k none row h = refl
  insert_value-other f k (some v) row h = rw h refl

  insert_fields-mandatory :
      (obj : V) (fields : List Text) (row : Row) (k : Text)
      → is_mandatory k ≡ true
      → insert_fields obj fields row k ≡ row k
  unfolding insert_fields
  insert_fields-mandatory obj [] row k h = refl
  insert_fields-mandatory obj (f ∷ fs) row k h = elim (Bool-cases (is_mandatory f)) [
    | inl e ↦ rw (e, insert_fields) (insert_fields-mandatory obj fs row k h)
    | inr e ↦
        rw (e, insert_fields)
          (insert_fields-mandatory obj fs (insert_value f (get obj f) row) k h
            ∙ insert_value-other f k (get obj f) row
                (==_of_ne f k (λ q. true≢false (sym h ∙ ap is_mandatory (sym q) ∙ e))))
  ]

  -- The three fields of a row that do not depend on the list of the indexed fields.
  pub parse_line-mandatory :
      (from_str : Text → Option V) (line : Text) (offset : ℕ) (raw_file : Text)
      (index_fields : List Text) (row : Row)
      → parse_line from_str line offset raw_file index_fields ≡ some row
      → (row (codes "byte_offset") ≡ some (decimal offset))
        × (row (codes "raw_file") ≡ some raw_file)
  unfolding parse_line
  parse_line-mandatory from_str line offset raw_file index_fields row h =
      let (raw, p, h₁) =
        bind-steps (from_str line)
          (λ raw. as_object raw (J.view raw) >>= λ obj. get_str obj (codes "timestamp") >>= λ t.
            some (insert_fields obj index_fields (mandatory_fields obj t offset raw_file)))
          row h in
      let (obj, q, h₂) =
        bind-steps (as_object raw (J.view raw))
          (λ obj. get_str obj (codes "timestamp") >>= λ t.
            some (insert_fields obj index_fields (mandatory_fields obj t offset raw_file)))
          row h₁ in
      let (t, r, h₃) =
        bind-steps (get_str obj (codes "timestamp"))
          (λ t. some (insert_fields obj index_fields (mandatory_fields obj t offset raw_file))) row
          h₂ in
      let start = mandatory_fields obj t offset raw_file in
      let same = some-injective (insert_fields obj index_fields start) row h₃ in
      (
        ap (λ m. m (codes "byte_offset")) (sym same)
            ∙ insert_fields-mandatory obj index_fields start (codes "byte_offset")
                (unfold is_mandatory in refl),
        ap (λ m. m (codes "raw_file")) (sym same)
            ∙ insert_fields-mandatory obj index_fields start (codes "raw_file")
                (unfold is_mandatory in refl),
      )
