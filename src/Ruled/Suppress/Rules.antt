-- ===== src/Ruled/Suppress/Rules.antt =====
-- src/ruled/src/suppress.rs, `SuppressSet` and `load`.
use headless_siem.Prelude.{
  ℕ, Text, Bool, false, ◌&&◌, Option, none, some, List, [], ◌∷◌, any, length, ◌==◌, nat_eq, list_eq,
  if◌then◌else◌, text_lt, ◌≡◌, refl, arith,
}
use headless_siem.Prelude.Results.{Result, ok, err, Result-cases}
use headless_siem.Prelude.{inl, inr}
use headless_siem.Json.{Json}
use headless_siem.Ruled.Suppress.Condition.{Expr, eval}
use headless_siem.Ruled.Suppress.Lexer.{SyntaxError}
use headless_siem.Ruled.Suppress.Parser.{parse_condition}

pub record SuppressRuleToml : Type 0 where
  pub rule_id : Text
  pub condition : Text
  pub expires : Option Text

pub record SuppressRule : Type 0 where
  pub rule_id : Text
  pub condition : Expr

pub record SuppressSet : Type 0 where
  pub rules : List SuppressRule

module _ {V : Type 0} ⦃J : Json V⦄ where
  unfoldable pub is_suppressed : SuppressSet → Text → V → Bool
  is_suppressed set rule_id event =
      any (λ r. r.rule_id == rule_id && eval r.condition event) set.rules

pub set_len : SuppressSet → ℕ
set_len set = length set.rules

-- What `load` prints for a rule.
pub data Warning : Type 0 where
  invalid_condition : Text → Text → SyntaxError → Warning
  expired : Text → Text → Warning

expiry_warning : Text → SuppressRuleToml → List Warning → List Warning
expiry_warning today r warnings = elim r.expires [
  | none ↦ warnings
  | some expires ↦ if text_lt expires today then expired r.rule_id expires ∷ warnings else warnings
]

-- The loop of `load`: a rule whose condition does not parse is skipped, one that has expired is
-- kept.
pub load_entries : Text → List SuppressRuleToml → List SuppressRule × List Warning
unfolding expiry_warning
load_entries today [] = ([], [])
load_entries today (r ∷ rest) =
    let (rules, warnings) = load_entries today rest in
    elim (parse_condition r.condition) [
      | err e ↦ (rules, invalid_condition r.rule_id r.condition e ∷ warnings)
      | ok c ↦
          (record { rule_id = r.rule_id; condition = c } ∷ rules, expiry_warning today r warnings)
    ]

pub data LoadError : Type 0 where
  unreadable bad_toml : LoadError

abbrev of_file :
    Text → Option (List SuppressRuleToml) → Result LoadError (SuppressSet × List Warning)
of_file today none = err bad_toml
of_file today (some entries) =
    let (rules, warnings) = load_entries today entries in ok (record { rules = rules }, warnings)

-- `read` is what the file system gives, `from_str` the `toml` crate's parser, `today` the date.
pub load :
    (Text → Option (List SuppressRuleToml))
    → Text
    → Option Text
    → Result LoadError (SuppressSet × List Warning)
unfolding load_entries
load from_str today none = err unreadable
load from_str today (some text) = of_file today (from_str text)

module _ {V : Type 0} ⦃J : Json V⦄ where
  -- What one entry of the file suppresses, read straight from its text.
  abbrev condition_holds : Result SyntaxError Expr → V → Bool
  condition_holds (ok c) event = eval c event
  condition_holds (err e) event = false

  unfoldable pub entry_suppresses : Text → V → SuppressRuleToml → Bool
  entry_suppresses rule_id event r =
      r.rule_id == rule_id && condition_holds (parse_condition r.condition) event

  -- The loaded set suppresses an alert exactly if some entry of the file has the alert's rule id and
  -- a condition that parses and holds of the event, whether the entry has expired or not.
  pub is_suppressed-load_entries :
      (today rule_id : Text) (event : V) (entries : List SuppressRuleToml)
      → is_suppressed (record { rules = (load_entries today entries).0 }) rule_id event
        ≡ any (entry_suppresses rule_id event) entries
  unfolding is_suppressed entry_suppresses load_entries
  is_suppressed-load_entries today rule_id event [] = refl
  is_suppressed-load_entries today rule_id event (r ∷ rest) =
      elim (Result-cases (parse_condition r.condition)) [
        | inl (c, e) ↦ rw e (ground (arith, is_suppressed-load_entries today rule_id event rest))
        | inr (x, e) ↦ rw e (ground (arith, is_suppressed-load_entries today rule_id event rest))
      ]
