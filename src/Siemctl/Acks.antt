-- ===== src/Siemctl/Acks.antt =====
-- src/siemctl/src/alerts.rs: acknowledged alerts. A file of acks is its lines, each of them a JSON
-- object with the rule and the moment up to which its alerts are hidden.
pub mod Hiding
pub mod Compaction
pub mod Samples
use headless_siem.Prelude.{
  ℕ, ◌+◌, ◌^◌, Text, codes, Bool, true, false, not, Option, none, some, List, [], ◌∷◌, ◌++◌, ◌&&◌,
  ◌==◌, nat_eq, list_eq, ltb, leb, if◌then◌else◌, HashMap, insert, empty_map, ℤ, pos, negsuc,
  parse_signed, is_empty,
}
use headless_siem.Prelude.Options.{◌>>=◌}
use headless_siem.Json.{Json, View, number, get, get_str}

-- `a <= b` on `i64`.
unfoldable pub int_leb : ℤ → ℤ → Bool
int_leb (pos a) (pos b) = leb a b
int_leb (pos a) (negsuc b) = false
int_leb (negsuc a) (pos b) = true
int_leb (negsuc a) (negsuc b) = leb b a

abbrev pub int_max : ℤ → ℤ → ℤ
int_max a b = if int_leb a b then b else a

-- An integer number that fits into `i64`.
abbrev i64_of : View → Option ℤ
i64_of (number s) = parse_signed (2 ^ 63) s
i64_of _ = none

abbrev raised : ℤ → Option ℤ → ℤ
raised ts none = ts
raised ts (some w) = int_max w ts

-- `entry(rule_id).and_modify(max).or_insert(ts)`
pub raise : Text × ℤ → HashMap Text ℤ → HashMap Text ℤ
unfolding int_leb
raise (rule_id, ts) watermarks = insert rule_id (raised ts (watermarks rule_id)) watermarks

abbrev pub raise_some : Option (Text × ℤ) → HashMap Text ℤ → HashMap Text ℤ
raise_some none watermarks = watermarks
raise_some (some a) watermarks = raise a watermarks

abbrev pub newer_than : Option ℤ → Option ℤ → Bool
newer_than none ts = true
newer_than (some w) none = true
newer_than (some w) (some ts) = not (int_leb ts w)

module _ {V : Type 0} ⦃J : Json V⦄ where
  abbrev pub timestamp_of : V → Option ℤ
  timestamp_of v = get v (codes "timestamp") >>= λ t. i64_of (J.view t)

  abbrev pub rule_id_of : V → Option Text
  rule_id_of v = get_str v (codes "rule_id")

  abbrev pub is_kept : HashMap Text ℤ → V → Bool
  is_kept watermarks r = elim (rule_id_of r) [
    | none ↦ true
    | some rule_id ↦ newer_than (watermarks rule_id) (timestamp_of r)
  ]

  -- `retain`
  unfoldable pub filter_acked : List V → HashMap Text ℤ → List V
  filter_acked [] watermarks = []
  filter_acked (r ∷ records) watermarks =
      let rest = filter_acked records watermarks in if is_kept watermarks r then r ∷ rest else rest

  -- `from_str` is serde_json's parser; an empty line is none of its texts.
  module _ (from_str : Text → Option V) where
    pub ack_of_value : V → Option (Text × ℤ)
    ack_of_value v = rule_id_of v >>= λ rule_id. timestamp_of v >>= λ ts. some (rule_id, ts)

    pub ack_of : Text → Option (Text × ℤ)
    unfolding ack_of_value
    ack_of line = elim (is_empty line) [ true ↦ none | false ↦ from_str line >>= ack_of_value ]

    raise_all : List Text → HashMap Text ℤ → HashMap Text ℤ
    unfolding ack_of
    raise_all [] watermarks = watermarks
    raise_all (line ∷ lines) watermarks = raise_all lines (raise_some (ack_of line) watermarks)

    -- On the lines of the file.
    unfoldable pub load_ack_watermarks : List Text → HashMap Text ℤ
    unfolding raise_all
    load_ack_watermarks lines = raise_all lines empty_map

    abbrev pub line_timestamp : Text → Option ℤ
    line_timestamp line = from_str line >>= timestamp_of

    abbrev pub not_before : ℤ → Option ℤ → Bool
    not_before cutoff none = true
    not_before cutoff (some ts) = int_leb cutoff ts

    -- The lines that stay and the number of those that go; empty lines are dropped without counting.
    unfoldable pub compact_lines : ℤ → List Text → List Text × ℕ
    compact_lines cutoff [] = ([], 0)
    compact_lines cutoff (line ∷ lines) =
        let (survivors, dropped) = compact_lines cutoff lines in
        if is_empty line
        then (survivors, dropped)
        else if not_before cutoff (line_timestamp line)
        then (line ∷ survivors, dropped)
        else (survivors, dropped + 1)

-- What becomes of the file.
pub data FileChange : Type 0 where
  unchanged removed : FileChange
  rewritten : Text → FileChange

-- Every line with a newline behind it.
abbrev with_newlines : List Text → Text
with_newlines [] = []
with_newlines (line ∷ lines) = line ++ codes "\n" ++ with_newlines lines

abbrev change_to : List Text → FileChange
change_to [] = removed
change_to (line ∷ lines) = rewritten (with_newlines (line ∷ lines))

-- On the lines of a file that is there. A result of 0 leaves the file alone, and so does a dry run.
unfoldable pub compact_ack_log :
    {V : Type 0} → ⦃J : Json V⦄ → (Text → Option V) → ℤ → Bool → List Text → FileChange × ℕ
unfolding compact_lines
compact_ack_log from_str cutoff dry_run lines =
    let (survivors, dropped) = compact_lines from_str cutoff lines in
    (if ltb 0 dropped && not dry_run then change_to survivors else unchanged, dropped)
