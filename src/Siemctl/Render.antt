-- ===== src/Siemctl/Render.antt =====
-- src/siemctl/src/render.rs: the output of records as JSON or as tab-separated values, up to a limit.
pub mod Limits
pub mod Cells
pub mod Samples
use headless_siem.Prelude.{
  ℕ, ◌+◌, ◌/◌, ◌%◌, ◌-◌, Text, codes, decimal, Bool, true, false, not, ◌&&◌, ◌||◌, Option, none,
  some, List, [], ◌∷◌, ◌++◌, map, ℤ, pos, negsuc, ◌==◌, nat_eq, list_eq, leb, ltb, if◌then◌else◌,
}
use headless_siem.Prelude.Results.{Result, ok, err}

pub data Format : Type 0 where
  json : Format
  tsv : Bool → Format

-- The error message is one.
pub parse_format : Text → Option Format
parse_format s =
    if s == codes "json"
    then some json
    else if s == codes "tsv"
    then some (tsv true)
    else if s == codes "tsv-noheader"
    then some (tsv false)
    else none

-- A floating-point number carries its `to_string`.
pub data Val : Type 0 where
  str real : Text → Val
  int : ℤ → Val
  bool : Bool → Val
  null : Val

abbrev int_text : ℤ → Text
int_text (pos n) = decimal n
int_text (negsuc n) = codes "-" ++ decimal (n + 1)

abbrev bool_text : Bool → Text
bool_text true = codes "true"
bool_text false = codes "false"

-- A tab, a newline and a carriage return become blanks.
abbrev pub blank_breaks : Text → Text
blank_breaks s = map (λ c. if c == 9 || c == 10 || c == 13 then 32 else c) s

unfoldable pub to_tsv : Val → Text
to_tsv (str s) = blank_breaks s
to_tsv (int n) = int_text n
to_tsv (real f) = f
to_tsv (bool b) = bool_text b
to_tsv null = []

abbrev hex_digit : ℕ → ℕ
hex_digit d = if ltb d 10 then b'0' + d else b'a' + d - 10

json_escape : Text → Text
json_escape [] = []
json_escape (c ∷ s) =
    (if c == 34
      then codes "\\\""
      else if c == 92
      then codes "\\\\"
      else if c == 10
      then codes "\\n"
      else if c == 13
      then codes "\\r"
      else if c == 9
      then codes "\\t"
      else if ltb c 0x20
      then codes "\\u00" ++ hex_digit (c / 16) ∷ hex_digit (c % 16) ∷ []
      else c ∷ [])
    ++ json_escape s

to_json : Val → Text
unfolding json_escape
to_json (str s) = codes "\"" ++ json_escape s ++ codes "\""
to_json (int n) = int_text n
to_json (real f) = f
to_json (bool b) = bool_text b
to_json null = codes "null"

abbrev pub Record : Type 0
Record = List (Text × Val)

abbrev pub find_val : Record → Text → Option Val
find_val [] key = none
find_val ((k, v) ∷ rec) key = if k == key then some v else find_val rec key

abbrev pub join : Text → List Text → Text
join sep [] = []
join sep (s ∷ []) = s
join sep (s ∷ t ∷ rest) = s ++ sep ++ join sep (t ∷ rest)

abbrev or_null : Option Val → Val
or_null none = null
or_null (some v) = v

abbrev json_pair : Text → Val → Text
json_pair k v = codes "\"" ++ json_escape k ++ codes "\":" ++ to_json v

abbrev json_parts : Option (List Text) → Record → List Text
json_parts (some fields) rec = map (λ f. json_pair f (or_null (find_val rec f))) fields
json_parts none rec = map (λ p. json_pair p.0 p.1) rec

unfoldable pub render_json : Option (List Text) → Record → Text
unfolding json_escape to_json
render_json fields rec = codes "{" ++ join (codes ",") (json_parts fields rec) ++ codes "}"

abbrev pub cell : Option Val → Text
cell none = []
cell (some v) = to_tsv v

pub cells : List Text → Record → List Text
unfolding to_tsv
cells cols rec = map (λ c. cell (find_val rec c)) cols

unfoldable pub tsv_row : List Text → Record → Text
unfolding cells
tsv_row cols rec = join (codes "\t") (cells cols rec)

-- `write_line` is `writeln!`; `none` is an error of the writer.
pub record Renderer (W : Type 0) : Type 0 where
  pub format : Format
  pub fields : Option (List Text)
  pub out : W
  pub tsv_cols : Option (List Text)
  pub header_done : Bool
  pub limit : Option ℕ
  pub emitted : ℕ

unfoldable pub new_renderer : {W : Type 0} → Format → Option (List Text) → W → Option ℕ → Renderer W
new_renderer format fields out limit = record {
  format = format;
  fields = fields;
  out = out;
  tsv_cols = none;
  header_done = false;
  limit = limit;
  emitted = 0;
}

abbrev pub reached : Option ℕ → ℕ → Bool
reached none emitted = false
reached (some limit) emitted = leb limit emitted

abbrev columns : Option (List Text) → Option (List Text) → Record → List Text
columns (some cols) fields rec = cols
columns none (some fields) rec = fields
columns none none rec = map (λ p. p.0) rec

module _ {W : Type 0} (write_line : W → Text → Option W) where
  -- The renderer behind a line, and whether it was written.
  abbrev put : Renderer W → Text → Renderer W × Bool
  put r line = elim (write_line r.out line) [
    | none ↦ (r, false)
    | some out ↦ (record r { out = out }, true)
  ]

  abbrev then_row : Renderer W × Bool → Text → Renderer W × Bool
  then_row (r, false) row = (r, false)
  then_row (r, true) row = put (record r { header_done = true }) row

  pub emit_tsv : Renderer W → Record → Bool → Renderer W × Bool
  unfolding tsv_row
  emit_tsv r rec header =
      let cols = columns r.tsv_cols r.fields rec in
      let r' = record r { tsv_cols = some cols } in
      elim (header && not r.header_done) [
        | true ↦ then_row (put r' (join (codes "\t") cols)) (tsv_row cols rec)
        | false ↦ put r' (tsv_row cols rec)
      ]

  pub write_rec : Renderer W → Record → Renderer W × Bool
  unfolding render_json emit_tsv
  write_rec r rec = elim r.format [
    | json ↦ put r (render_json r.fields rec)
    | tsv header ↦ emit_tsv r rec header
  ]

  abbrev counted : Renderer W × Bool → Renderer W × Bool
  counted (r, b) = (record r { emitted = r.emitted + 1 }, b)

  unfoldable pub emit_record : Renderer W → Record → Renderer W × Bool
  unfolding write_rec
  emit_record r rec = elim (reached r.limit r.emitted) [
    | true ↦ (r, true)
    | false ↦ counted (write_rec r rec)
  ]

  -- A line that is no object, behind the check of the limit.
  abbrev pass_line : Renderer W → Text → Format → Renderer W × Bool
  pass_line r line json = counted (put r line)
  pass_line r line (tsv header) = (r, true)

  abbrev verbatim : Format → Option (List Text) → Bool
  verbatim json none = true
  verbatim _ _ = false

  abbrev emit_parsed : Renderer W → Text → Option Record → Renderer W × Bool
  emit_parsed r line none = pass_line r line r.format
  emit_parsed r line (some rec) = counted (write_rec r rec)

  -- `parse_flat_object` reads a line by serde_json.
  module _ (parse_flat_object : Text → Option Record) where
    unfoldable pub emit_raw_line : Renderer W → Text → Renderer W × Bool
    unfolding write_rec
    emit_raw_line r line = elim (reached r.limit r.emitted) [
      | true ↦ (r, true)
      | false ↦ elim (verbatim r.format r.fields) [
        | true ↦ counted (put r line)
        | false ↦ emit_parsed r line (parse_flat_object line)
      ]
    ]
