-- ===== src/Correlated/Config.antt =====
-- src/correlated/src/config.rs: correlation rules, their defaults and the check that `load` makes.
use headless_siem.Prelude.{ℕ, Text, Bool, true, Option, none, some, List, [], ◌∷◌, map}

pub record Step : Type 0 where
  pub rule_id : Text
  pub min_count : ℕ

pub record CorrelationRule : Type 0 where
  pub id : Text
  pub title : Text
  pub description : Text
  pub join_field : Text
  pub window_seconds : ℕ
  pub ordered : Bool
  pub steps : List Step

abbrev pub default_window : ℕ
default_window = 300

abbrev pub default_true : Bool
default_true = true

abbrev pub default_one : ℕ
default_one = 1

-- A rule as it stands in the TOML document, with the keys that may be missing.
pub record TomlStep : Type 0 where
  pub rule_id : Text
  pub min_count : Option ℕ

pub record TomlRule : Type 0 where
  pub id : Text
  pub title : Text
  pub description : Option Text
  pub join_field : Text
  pub window_seconds : Option ℕ
  pub ordered : Option Bool
  pub steps : List TomlStep

abbrev or_default {ℓ} : {A : Type ℓ} → A → Option A → A
or_default d none = d
or_default d (some a) = a

step_of_toml : TomlStep → Step
step_of_toml t = record { rule_id = t.rule_id; min_count = or_default default_one t.min_count }

pub rule_of_toml : TomlRule → CorrelationRule
unfolding step_of_toml
rule_of_toml t = record {
  id = t.id;
  title = t.title;
  description = or_default [] t.description;
  join_field = t.join_field;
  window_seconds = or_default default_window t.window_seconds;
  ordered = or_default default_true t.ordered;
  steps = map step_of_toml t.steps;
}

pub data LoadError : Type 0 where
  unreadable : LoadError
  bad_toml : LoadError
  -- "correlation rule '…' has no [[rule.step]] entries"
  no_steps : Text → LoadError

pub data Loaded : Type 0 where
  ok : List CorrelationRule → Loaded
  err : LoadError → Loaded

-- The loop of `load` over the rules: the first rule with no steps is the error.
pub check_rules : List CorrelationRule → List CorrelationRule → Loaded
check_rules all [] = ok all
check_rules all (r ∷ rest) = elim r.steps [
  | [] ↦ err (no_steps r.id)
  | s ∷ ss ↦ check_rules all rest
]

-- `read` is what the file system gives, `from_str` the `toml` crate's parser.
pub load : (Text → Option (List TomlRule)) → Option Text → Loaded
unfolding check_rules rule_of_toml
load from_str none = err unreadable
load from_str (some text) = elim (from_str text) [
  | none ↦ err bad_toml
  | some rules ↦ check_rules (map rule_of_toml rules) (map rule_of_toml rules)
]
