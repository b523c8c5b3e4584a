-- ===== src/Normalized/Flat.antt =====
-- src/normalized/src/event.rs: the flat map of an event, and its line of JSON.
pub mod Reading
pub mod Objects
pub mod Keys
pub mod Flatten
use headless_siem.Prelude.{
  ℕ, Text, codes, trim, is_empty, text_lt, ◌/◌, ◌%◌, ◌+◌, ◌-◌, Bool, true, false, not, Option, none,
  some, List, [], ◌∷◌, ◌++◌, ◌==◌, nat_eq, list_eq, ltb, if◌then◌else◌,
}
use headless_siem.Normalized.Event.{
  Event, Format, plain, format_text, not_blank, severity_text, facility_text, Severity,
}

pub data FlatVal : Type 0 where
  text : Text → FlatVal
  boolean : Bool → FlatVal

-- `BTreeMap<String, FlatVal>`
abbrev pub FlatMap : Type 0
FlatMap = List (Text × FlatVal)

abbrev pub lookup : Text → FlatMap → Option FlatVal
lookup k [] = none
lookup k ((j, v) ∷ m) = if j == k then some v else lookup k m

unfoldable pub insert : Text → FlatVal → FlatMap → FlatMap
insert k v [] = (k, v) ∷ []
insert k v ((j, w) ∷ m) =
    let rest = insert k v m in
    if j == k then (k, v) ∷ m else if text_lt k j then (k, v) ∷ (j, w) ∷ m else (j, w) ∷ rest

-- `entry(k).or_insert(v)`
abbrev or_insert : Text → FlatVal → FlatMap → FlatMap
or_insert k v m = elim (lookup k m) [ some w ↦ m | none ↦ insert k v m ]

abbrev pub synonym_target : Text → Option Text
synonym_target key =
    if key == codes "src"
    then some (codes "src_ip")
    else if key == codes "dst"
    then some (codes "dst_ip")
    else if key == codes "spt"
    then some (codes "src_port")
    else if key == codes "dpt"
    then some (codes "dst_port")
    else none

-- The two passes over the structured fields.
pub insert_plain : List (Text × Text) → FlatMap → FlatMap
unfolding insert
insert_plain [] m = m
insert_plain ((k, v) ∷ fs) m =
    insert_plain fs (elim (synonym_target k) [ none ↦ insert k (text v) m | some target ↦ m ])

pub insert_synonyms : List (Text × Text) → FlatMap → FlatMap
unfolding insert
insert_synonyms [] m = m
insert_synonyms ((k, v) ∷ fs) m =
    insert_synonyms fs
      (elim (synonym_target k) [ none ↦ m | some target ↦ or_insert target (text v) m ])

-- `if let Some(v) = … { m.insert(k, v) }`
abbrev pub insert_some : Text → Option FlatVal → FlatMap → FlatMap
insert_some k none m = m
insert_some k (some v) m = insert k v m

pub insert_all : List (Text × Option FlatVal) → FlatMap → FlatMap
unfolding insert
insert_all [] m = m
insert_all ((k, v) ∷ entries) m = insert_all entries (insert_some k v m)

abbrev text_option : Option Text → Option FlatVal
text_option none = none
text_option (some s) = some (text s)

abbrev pub or_received : Text → Option Text → Text
or_received received_iso none = received_iso
or_received received_iso (some ts) = ts

abbrev is_plain : Format → Bool
is_plain plain = true
is_plain _ = false

abbrev severity_of : Event → Option Text
severity_of e = elim e.severity [
  | none ↦ none
  | some s ↦ if e.force_severity then none else some (severity_text s)
]

abbrev facility_of : Option ℕ → Option Text
facility_of none = none
facility_of (some f) = some (facility_text f)

abbrev message_of : Text → Option Text
message_of [] = none
message_of (c ∷ s) = some (c ∷ s)

-- What is written over the structured fields, in order. `from_utf8_lossy` is the decoding of the
-- standard library, with replacement characters.
abbrev pub envelope : (List ℕ → Text) → Event → Text → Text → List (Text × Option FlatVal)
envelope from_utf8_lossy e source received_iso =
    (codes "timestamp", some (text (or_received received_iso (not_blank e.timestamp))))
    ∷ (codes "_received", some (text received_iso))
    ∷ (codes "_source_type", some (text source))
    ∷ (codes "_format", some (text (format_text e.format)))
    ∷ (codes "_normalized", some (boolean (not (is_plain e.format))))
    ∷ (codes "source_addr", some (text e.source_addr))
    ∷ (codes "hostname", text_option e.hostname)
    ∷ (codes "app_name", text_option e.app_name)
    ∷ (codes "proc_id", text_option e.proc_id)
    ∷ (codes "msg_id", text_option e.msg_id)
    ∷ (codes "severity", text_option (severity_of e))
    ∷ (codes "facility", text_option (facility_of e.facility))
    ∷ (codes "message", text_option (message_of e.message))
    ∷ (codes "_raw", some (text (trim (from_utf8_lossy e.raw))))
    ∷ []

unfoldable pub flatten : (List ℕ → Text) → Event → Text → Text → FlatMap
unfolding insert_plain insert_synonyms insert_all
flatten from_utf8_lossy e source received_iso =
    insert_all (envelope from_utf8_lossy e source received_iso)
      (insert_synonyms e.fields (insert_plain e.fields []))

-- `{:04x}` below 0x20.
abbrev hex_digit : ℕ → ℕ
hex_digit d = if ltb d 10 then b'0' + d else b'a' + d - 10

escaped : ℕ → Text
escaped c =
    if c == 34
    then codes "\\\""
    else if c == 92
    then codes "\\\\"
    else if c == 10
    then codes "\\n"
    else if c == 13
    then codes "\\r"
    else if c == 9
    then codes "\\t"
    else if ltb c 0x20
    then codes "\\u00" ++ hex_digit (c / 16) ∷ hex_digit (c % 16) ∷ []
    else c ∷ []

pub escape : Text → Text
unfolding escaped
escape [] = []
escape (c ∷ s) = escaped c ++ escape s

unfoldable pub json_string : Text → Text
unfolding escape
json_string s = 34 ∷ (escape s ++ 34 ∷ [])

abbrev value_text : FlatVal → Text
value_text (text s) = json_string s
value_text (boolean true) = codes "true"
value_text (boolean false) = codes "false"

pair_text : Text × FlatVal → Text
unfolding json_string
pair_text (k, v) = json_string k ++ codes ":" ++ value_text v

pairs_text : FlatMap → Text
unfolding pair_text
pairs_text [] = []
pairs_text (p ∷ []) = pair_text p
pairs_text (p ∷ q ∷ m) = pair_text p ++ codes "," ++ pairs_text (q ∷ m)

unfoldable pub serialize_flat : FlatMap → Text
unfolding pairs_text
serialize_flat m = codes "{" ++ pairs_text m ++ codes "}"
