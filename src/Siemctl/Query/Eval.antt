-- ===== src/Siemctl/Query/Eval.antt =====
-- src/siemctl/src/query.rs, `eval_json`: a filter evaluated on an alert, without SQLite.
pub mod ThreeValued
use headless_siem.Prelude.{
  Text, codes, Bool, true, false, not, ◌&&◌, ◌||◌, Option, none, some, ◌==◌, nat_eq, list_eq,
  starts_with, ends_with, contains, is_empty,
}
use headless_siem.Prelude.Options.{◌>>=◌}
use headless_siem.Json.{Json, View, null, boolean, number, string, array, object, get}
use headless_siem.Siemctl.Db.{
  MatchMode, exact, not_exact, starting, ending, containing, cidr, any_value,
}
use headless_siem.Siemctl.Db.Cidr.{cidr_contains, or_false}
use headless_siem.Siemctl.Query.Syntax.{Condition, field, text, Expr, both, either, negate, cond}

-- `Option::or_else`
abbrev or_else {ℓ} : {A : Type ℓ} → Option A → Option A → Option A
or_else none b = b
or_else (some a) b = some a

abbrev bool_text : Bool → Text
bool_text true = codes "true"
bool_text false = codes "false"

abbrev scalar_text : View → Option Text
scalar_text (string s) = some s
scalar_text (number n) = some n
scalar_text (boolean b) = some (bool_text b)
scalar_text _ = none

abbrev is_null : View → Bool
is_null null = true
is_null _ = false

-- Unicode lower case and `Value::get(0)` are the environment's.
module _ (to_lowercase : Text → Text) where
  -- What each mode asks of a value that is present.
  pub matches : MatchMode → Text → Text → Bool
  matches exact value r = r == value
  matches not_exact value r = not (r == value)
  matches starting value r = starts_with (to_lowercase r) (to_lowercase value)
  matches ending value r = ends_with (to_lowercase r) (to_lowercase value)
  matches containing value r = contains (to_lowercase r) (to_lowercase value)
  matches cidr value r = or_false (cidr_contains value r)
  matches any_value value r = not (is_empty r)

  module _ {V : Type 0} ⦃J : Json V⦄ (first_element : V → Option V) where
    abbrev not_null : V → Option V
    not_null v = elim (is_null (J.view v)) [ true ↦ none | false ↦ some v ]

    resolve_json_field : V → Text → Option V
    resolve_json_field event f =
        or_else (or_else (get event f) (get event (codes "event") >>= λ e. get e f))
          (get event (codes "sample_events") >>= λ arr. first_element arr >>= λ e. get e f)
        >>= not_null

    abbrev json_scalar_to_string : V → Option Text
    json_scalar_to_string v = scalar_text (J.view v)

    -- The value that a condition compares.
    unfoldable pub resolved : V → Text → Option Text
    unfolding resolve_json_field
    resolved event f = resolve_json_field event f >>= json_scalar_to_string

    abbrev matches_present : MatchMode → Text → Option Text → Bool
    matches_present mode value none = false
    matches_present mode value (some r) = matches mode value r

    pub eval_condition : Condition → V → Bool
    unfolding matches resolved
    eval_condition (field f value mode) event = matches_present mode value (resolved event f)
    eval_condition (text needle) event = contains (J.to_text event) needle

    unfoldable pub eval_json : Expr → V → Bool
    unfolding eval_condition
    eval_json (both a b) event = eval_json a event && eval_json b event
    eval_json (either a b) event = eval_json a event || eval_json b event
    eval_json (negate e) event = not (eval_json e event)
    eval_json (cond c) event = eval_condition c event
