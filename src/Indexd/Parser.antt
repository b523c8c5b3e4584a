-- ===== src/Indexd/Parser.antt =====
-- src/indexd/src/parser.rs, `parse_line`: the fields of an event that are indexed.
pub mod Mandatory
use headless_siem.Prelude.{
  ℕ, Text, codes, decimal, Bool, true, false, ◌||◌, Option, none, some, List, [], ◌∷◌, ◌==◌, nat_eq,
  list_eq, if◌then◌else◌, HashMap, insert, empty_map,
}
use headless_siem.Prelude.Options.{◌>>=◌}
use headless_siem.Json.{Json, View, null, boolean, number, string, array, object, get, get_str}

-- `HashMap<String, String>`
abbrev pub Row : Type 0
Row = HashMap Text Text

-- Set for every event, and not taken from the list of the indexed fields.
is_mandatory : Text → Bool
is_mandatory f =
    f == codes "timestamp"
    || f == codes "_source_type"
    || f == codes "byte_offset"
    || f == codes "raw_file"

abbrev bool_text : Bool → Text
bool_text true = codes "true"
bool_text false = codes "false"

abbrev or_unknown : Option Text → Text
or_unknown none = codes "unknown"
or_unknown (some s) = s

-- The text of a value; `to_string` where it is no scalar.
abbrev value_text : View → Text → Text
value_text (string s) text = s
value_text (number n) text = n
value_text (boolean b) text = bool_text b
value_text _ text = text

module _ {V : Type 0} ⦃J : Json V⦄ where
  abbrev insert_value : Text → Option V → Row → Row
  insert_value name none row = row
  insert_value name (some v) row = insert name (value_text (J.view v) (J.to_text v)) row

  insert_fields : V → List Text → Row → Row
  unfolding is_mandatory
  insert_fields obj [] row = row
  insert_fields obj (f ∷ fs) row =
      insert_fields obj fs
        (elim (is_mandatory f) [ true ↦ row | false ↦ insert_value f (get obj f) row ])

  abbrev mandatory_fields : V → Text → ℕ → Text → Row
  mandatory_fields obj timestamp byte_offset raw_file =
      insert (codes "_source_type") (or_unknown (get_str obj (codes "_source_type"))) (
        insert (codes "raw_file") raw_file (
          insert (codes "byte_offset") (decimal byte_offset)
            (insert (codes "timestamp") timestamp empty_map)))

  abbrev as_object : V → View → Option V
  as_object v object = some v
  as_object v _ = none

  -- `from_str` is serde_json's parser.
  unfoldable pub parse_line : (Text → Option V) → Text → ℕ → Text → List Text → Option Row
  unfolding insert_fields
  parse_line from_str line byte_offset raw_file index_fields = do
    raw ← from_str line
    obj ← as_object raw (J.view raw)
    timestamp ← get_str obj (codes "timestamp")
    some (insert_fields obj index_fields (mandatory_fields obj timestamp byte_offset raw_file))
