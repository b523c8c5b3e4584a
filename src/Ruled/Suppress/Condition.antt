-- ===== src/Ruled/Suppress/Condition.antt =====
-- src/ruled/src/suppress.rs, `Expr` and its evaluation on an event.
use headless_siem.Prelude.{
  Text, codes, Bool, true, false, not, ◌&&◌, ◌||◌, Option, none, some, ◌==◌, nat_eq, list_eq,
}
use headless_siem.Prelude.Results.{Result, ok, err}
use headless_siem.Json.{Json, View, boolean, number, string, get}
use headless_siem.Ruled.Suppress.Cidr.{CidrError, cidr_contains}

pub data Cmp : Type 0 where
  eq ne : Cmp

pub data Expr : Type 0 where
  both : Expr → Expr → Expr
  either : Expr → Expr → Expr
  negate : Expr → Expr
  compare : Text → Text → Cmp → Expr
  cidr_match : Text → Text → Expr

-- `bool::to_string`
abbrev pub bool_text : Bool → Text
bool_text true = codes "true"
bool_text false = codes "false"

-- The text of a scalar; null, arrays and objects have none.
abbrev pub scalar_text : View → Option Text
scalar_text (string s) = some s
scalar_text (number n) = some n
scalar_text (boolean b) = some (bool_text b)
scalar_text _ = none

compare_text : Cmp → Text → Option Text → Bool
compare_text cmp value none = false
compare_text eq value (some actual) = actual == value
compare_text ne value (some actual) = not (actual == value)

or_false : Result CidrError Bool → Bool
or_false (ok b) = b
or_false (err e) = false

match_cidr : Text → Option Text → Bool
unfolding or_false
match_cidr cidr none = false
match_cidr cidr (some ip) = or_false (cidr_contains cidr ip)

module _ {V : Type 0} ⦃J : Json V⦄ where
  abbrev scalar_of : Option V → Option Text
  scalar_of none = none
  scalar_of (some v) = scalar_text (J.view v)

  unfoldable pub field_as_string : V → Text → Option Text
  field_as_string event field = scalar_of (get event field)

  -- `Expr::eval`
  unfoldable pub eval : Expr → V → Bool
  unfolding compare_text match_cidr
  eval (both a b) event = eval a event && eval b event
  eval (either a b) event = eval a event || eval b event
  eval (negate e) event = not (eval e event)
  eval (compare field value cmp) event = compare_text cmp value (field_as_string event field)
  eval (cidr_match field cidr) event = match_cidr cidr (field_as_string event field)
