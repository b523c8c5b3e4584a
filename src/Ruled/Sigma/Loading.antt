-- ===== src/Ruled/Sigma/Loading.antt =====
-- src/ruled/src/rules.rs: from YAML to rules (`parse_rule`, `parse_detection`, `parse_selection`,
-- `parse_logsource`, `load_rules`).
use headless_siem.Prelude.{
  Text, codes, split_once, is_empty, Bool, ◌&&◌, not, Option, none, some, List, [], ◌∷◌, ◌++◌, ◌==◌,
  nat_eq, list_eq, if◌then◌else◌,
}
use headless_siem.Prelude.Results.{Result, ok, err, ◌>>=◌}
use headless_siem.Yaml.{Yaml, Node, null, boolean, number, string, sequence, mapping, as_str}
use headless_siem.Ruled.Suppress.Condition.{bool_text}
use headless_siem.Ruled.Sigma.Condition.{Condition, ConditionError, parse_condition}
use headless_siem.Ruled.Sigma.Rule.{
  Rule, LogSource, Detection, Selection, Selections, FieldMatch, equals, contains_text, starts,
  ends, btree_insert,
}

pub data RuleError : Type 0 where
  yaml_error missing_id missing_title logsource_not_mapping detection_not_mapping : RuleError
  selection_not_mapping condition_not_string no_condition : RuleError
  bad_condition : ConditionError → RuleError

abbrev text_or_empty : Option Text → Text
text_or_empty none = []
text_or_empty (some s) = s

-- `field|modifier`; an unknown modifier leaves the whole key as the field.
pub field_match : Text → Text → FieldMatch
field_match key value = elim (split_once b'|' key) [
  | none ↦ equals key value
  | some (field, modifier) ↦
      if modifier == codes "contains"
      then contains_text field value
      else if modifier == codes "startswith"
      then starts field value
      else if modifier == codes "endswith"
      then ends field value
      else equals key value
]

module _ {Y : Type 0} where
  -- The text of a scalar value; any other entry of a selection is skipped.
  value_text : Node Y → Option Text
  value_text (string s) = some s
  value_text (number n) = some n
  value_text (boolean b) = some (bool_text b)
  value_text _ = none

-- What the loop of `parse_detection` has gathered.
pub record Gathered : Type 0 where
  pub selections : Selections
  pub keywords : List Text
  pub condition_str : Text

require_str : Option Text → Result RuleError Text
require_str none = err condition_not_string
require_str (some s) = ok s

lift_condition : Result ConditionError Condition → Result RuleError Condition
lift_condition (ok c) = ok c
lift_condition (err e) = err (bad_condition e)

finish_detection : Gathered → Result RuleError Detection
unfolding lift_condition
finish_detection g = if is_empty g.condition_str then err no_condition else do
  c ← lift_condition (parse_condition g.condition_str)
  ok (record { selections = g.selections; keywords = g.keywords; condition = c })

module _ {Y : Type 0} ⦃I : Yaml Y⦄ where
  pub selection_fields : List (Y × Y) → Selection
  unfolding value_text field_match
  selection_fields [] = []
  selection_fields ((key, val) ∷ rest) =
      let fields = selection_fields rest in
      elim (value_text (I.view val)) [
        | none ↦ fields
        | some value ↦ field_match (text_or_empty (as_str key)) value ∷ fields
      ]

  selection_of : Node Y → Result RuleError Selection
  unfolding selection_fields
  selection_of (mapping entries) = ok (selection_fields entries)
  selection_of _ = err selection_not_mapping

  pub parse_selection : Y → Result RuleError Selection
  unfolding selection_of
  parse_selection value = selection_of (I.view value)

  -- The first entry with a key, as `Mapping::get` finds it.
  find_entry : Text → List (Y × Y) → Option Text
  find_entry name [] = none
  find_entry name ((key, val) ∷ rest) = elim (as_str key) [
    | none ↦ find_entry name rest
    | some k ↦ if k == name then as_str val else find_entry name rest
  ]

  logsource_of : Node Y → Result RuleError LogSource
  unfolding find_entry
  logsource_of (mapping entries) = ok (record {
    product = find_entry (codes "product") entries;
    service = find_entry (codes "service") entries;
    category = find_entry (codes "category") entries;
  })
  logsource_of null = ok (record { product = none; service = none; category = none })
  logsource_of _ = err logsource_not_mapping

  pub parse_logsource : Y → Result RuleError LogSource
  unfolding logsource_of
  parse_logsource value = logsource_of (I.view value)

  texts_of : List Y → List Text
  texts_of [] = []
  texts_of (item ∷ rest) = elim (as_str item) [ none ↦ texts_of rest | some s ↦ s ∷ texts_of rest ]

  keywords_of : Node Y → List Text
  unfolding texts_of
  keywords_of (sequence items) = texts_of items
  keywords_of _ = []

  pub gather : Gathered → List (Y × Y) → Result RuleError Gathered
  unfolding require_str keywords_of parse_selection
  gather g [] = ok g
  gather g ((key, val) ∷ rest) =
      let key_str = text_or_empty (as_str key) in
      let as_condition = do
        s ← require_str (as_str val)
        gather (record g { condition_str = s }) rest
      in let as_keywords =
          gather (record g { keywords = g.keywords ++ keywords_of (I.view val) }) rest in
        let as_selection = do
          sel ← parse_selection val
          gather (record g { selections = btree_insert key_str sel g.selections }) rest
        in if key_str == codes "condition"
          then as_condition
          else if key_str == codes "keywords"
          then as_keywords
          else as_selection

  detection_of : Node Y → Result RuleError Detection
  unfolding gather finish_detection
  detection_of (mapping entries) = do
    g ← gather (record { selections = []; keywords = []; condition_str = [] }) entries
    finish_detection g
  detection_of _ = err detection_not_mapping

  pub parse_detection : Y → Result RuleError Detection
  unfolding detection_of
  parse_detection value = detection_of (I.view value)

-- `RawRule`, as the derived deserializer gives it.
pub record RawRule (Y : Type 0) : Type 0 where
  pub id : Option Text
  pub title : Option Text
  pub description : Text
  pub level : Text
  pub status : Text
  pub tags : List Text
  pub logsource : Y
  pub detection : Y

or_error {ℓ} : {A : Type ℓ} → RuleError → Option A → Result RuleError A
or_error e none = err e
or_error e (some a) = ok a

-- A file that the walk over the rules directory meets; `content` is missing if it cannot be read.
pub record RuleFile : Type 0 where
  pub is_file : Bool
  pub extension : Text
  pub content : Option Text

module _ {Y : Type 0} ⦃I : Yaml Y⦄ (from_str : Text → Option (RawRule Y)) where
  pub parse_rule : Text → Result RuleError Rule
  unfolding or_error
  parse_rule yaml = do
    raw ← or_error yaml_error (from_str yaml)
    id ← or_error missing_id raw.id
    title ← or_error missing_title raw.title
    logsource ← parse_logsource raw.logsource
    detection ← parse_detection raw.detection
    ok (record {
      id = id;
      title = title;
      description = raw.description;
      level = raw.level;
      status = raw.status;
      tags = raw.tags;
      logsource = logsource;
      detection = detection;
    })

  -- A rule that is kept: it parses and is not deprecated.
  keep_rule : Result RuleError Rule → List Rule → List Rule
  keep_rule (err e) rules = rules
  keep_rule (ok rule) rules = if rule.status == codes "deprecated" then rules else rule ∷ rules

  -- `load_rules` over the files of the walk; a file that cannot be read ends it with an error.
  pub load_rules : List RuleFile → Option (List Rule)
  unfolding keep_rule
  load_rules [] = some []
  load_rules (f ∷ rest) =
      let later = load_rules rest in
      if not f.is_file
      then later
      else if not (f.extension == codes "yml") && not (f.extension == codes "yaml")
      then later
      else elim f.content [
        | none ↦ none
        | some content ↦ elim later [
          | none ↦ none
          | some rules ↦ some (keep_rule (parse_rule content) rules)
        ]
      ]
