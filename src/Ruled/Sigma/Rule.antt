-- ===== src/Ruled/Sigma/Rule.antt =====
-- src/ruled/src/rules.rs, `Rule` and its evaluation on an event. `lower`, the Unicode lower-casing
-- of the standard library (a table), is a parameter.
use headless_siem.Prelude.{
  Text, codes, contains, starts_with, ends_with, Bool, true, false, not, ◌&&◌, ◌||◌, Option, none,
  some, List, [], ◌∷◌, any, all, ◌==◌, nat_eq, list_eq, text_lt, if◌then◌else◌,
}
use headless_siem.Json.{Json, get_str}
use headless_siem.Ruled.Suppress.Condition.{field_as_string}
use headless_siem.Ruled.Sigma.Condition.{Condition, reference, and, or, one_of_them, one_of_pattern}
use headless_siem.Ruled.Sigma.Glob.{glob_match}

pub data FieldMatch : Type 0 where
  equals contains_text starts ends : Text → Text → FieldMatch

pub record LogSource : Type 0 where
  pub product : Option Text
  pub service : Option Text
  pub category : Option Text

abbrev pub Selection : Type 0
Selection = List FieldMatch

-- `selections`, a `BTreeMap`, in the order of its keys.
abbrev pub Selections : Type 0
Selections = List (Text × Selection)

pub record Detection : Type 0 where
  pub selections : Selections
  pub keywords : List Text
  pub condition : Condition

pub record Rule : Type 0 where
  pub id : Text
  pub title : Text
  pub description : Text
  pub level : Text
  pub status : Text
  pub tags : List Text
  pub logsource : LogSource
  pub detection : Detection

-- `BTreeMap::insert`
pub btree_insert : Text → Selection → Selections → Selections
btree_insert k v [] = (k, v) ∷ []
btree_insert k v ((j, w) ∷ m) =
    let rest = btree_insert k v m in
    if k == j then (k, v) ∷ m else if text_lt k j then (k, v) ∷ (j, w) ∷ m else (j, w) ∷ rest

-- `BTreeMap::get`
unfoldable pub btree_get : Text → Selections → Option Selection
btree_get k [] = none
btree_get k ((j, w) ∷ m) = if k == j then some w else btree_get k m

-- The source type contains the name, where one is given.
unfoldable pub source_has : Text → Option Text → Bool
source_has source none = true
source_has source (some name) = contains source name

text_or_empty : Option Text → Text
text_or_empty none = []
text_or_empty (some s) = s

is_none : Option Text → Bool
is_none none = true
is_none (some s) = false

holds_of : (Text → Bool) → Option Text → Bool
holds_of test none = false
holds_of test (some s) = test s

module _ {V : Type 0} ⦃J : Json V⦄ (lower : Text → Text) where
  unfoldable pub logsource_matches : LogSource → V → Bool
  unfolding is_none text_or_empty
  logsource_matches ls event =
      let source = text_or_empty (get_str event (codes "_source_type")) in
      if is_none ls.product && (is_none ls.service && is_none ls.category)
      then true
      else if not (source_has source ls.service)
      then false
      else if not (source_has source ls.product)
      then false
      else source_has source ls.category

  unfoldable pub eval_field_match : FieldMatch → V → Bool
  unfolding holds_of
  eval_field_match (equals field value) event =
      holds_of (λ s. s == value) (field_as_string event field)
  eval_field_match (contains_text field value) event =
      holds_of (λ s. contains (lower s) (lower value)) (get_str event field)
  eval_field_match (starts field value) event =
      holds_of (λ s. starts_with s value) (get_str event field)
  eval_field_match (ends field value) event =
      holds_of (λ s. ends_with s value) (get_str event field)

  unfoldable pub eval_selection : Selection → V → Bool
  eval_selection sel event = all (λ fm. eval_field_match fm event) sel

  unfoldable pub eval_keywords : List Text → V → Bool
  eval_keywords keywords event = any (λ kw. contains (lower (J.to_text event)) (lower kw)) keywords

  eval_found : Option Selection → V → Bool
  eval_found none event = false
  eval_found (some sel) event = eval_selection sel event

  unfoldable pub eval_condition : Detection → Condition → V → Bool
  unfolding eval_found
  eval_condition d (reference name) event =
      if name == codes "keywords"
      then eval_keywords d.keywords event
      else eval_found (btree_get name d.selections) event
  eval_condition d (and left right) event =
      eval_condition d left event && eval_condition d right event
  eval_condition d (or left right) event =
      eval_condition d left event || eval_condition d right event
  eval_condition d (Condition.not inner) event = not (eval_condition d inner event)
  eval_condition d one_of_them event = any (λ s. eval_selection s.1 event) d.selections
  eval_condition d (one_of_pattern pattern) event =
      any (λ s. glob_match pattern s.0 && eval_selection s.1 event) d.selections

  -- `Rule::matches`
  unfoldable pub matches : Rule → V → Bool
  matches rule event =
      if not (logsource_matches rule.logsource event)
      then false
      else eval_condition rule.detection rule.detection.condition event
