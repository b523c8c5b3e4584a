-- ===== src/Siemctl/Query/Samples.antt =====
-- A query in every clause of the language, and an alert that it is evaluated on.
use headless_siem.Prelude.{
  Text, codes, Option, none, some, List, [], ◌∷◌, ◌++◌, length, ◌≡◌, ◌≢◌, refl, is_whitespace,
  is_ascii_alphabetic, is_ascii_alphanumeric, is_ascii_digit, parse_unsigned, ascii_upper,
  ascii_lower, split_once, split, contains,
}
use headless_siem.Prelude.Results.{ok, err}
use mathlib.Core.Option.{some-ne-none}
use headless_siem.Json.Sample.{Value, obj, str, Fields, end, sample_json}
use headless_siem.Siemctl.Db.{MatchMode}
use headless_siem.Siemctl.Db.Cidr.{cidr_contains}
use headless_siem.Siemctl.Query.Syntax.{
  Condition, Expr, both, either, negate, cond, Query, out_of_fuel,
}
use headless_siem.Siemctl.Query.Lexer.{lex}
use headless_siem.Siemctl.Query.Parser.{parse, is_sql_ident, validate_field}
use headless_siem.Siemctl.Query.Parser.Whole.{SafeQuery, parse_ends, parse-SafeQuery}
use headless_siem.Siemctl.Query.Compile.{to_sql}
use headless_siem.Siemctl.Query.Compile.Values.{change_values, to_sql-change_values}
use headless_siem.Siemctl.Query.Compile.Placeholders.{placeholders, to_sql-placeholders}
use headless_siem.Siemctl.Query.Eval.{resolved, eval_json}
use headless_siem.Siemctl.Query.Eval.ThreeValued.{
  holds, eval3, AllPresent, NegatedPresent, eval_json-three_valued,
}

abbrev indexed : List Text
indexed = codes "src_ip" ∷ codes "app" ∷ []

abbrev dsl : Text
dsl =
    codes
      "SELECT msg where NOT (cidr_match(src_ip, '10.0.0.0/8') or app != x) AND app=\"a b\" GROUP BY app LIMIT 5"

abbrev outside : Expr
outside = negate (
    either (cond (Condition.field (codes "src_ip") (codes "10.0.0.0/8") MatchMode.cidr))
      (cond (Condition.field (codes "app") (codes "x") MatchMode.not_exact)))

abbrev query : Query
query = record {
  select = some (codes "msg" ∷ []);
  expr = some (both outside (cond (Condition.field (codes "app") (codes "a b") MatchMode.exact)));
  group_by = some (codes "app" ∷ []);
  limit = some 5;
  after = none;
  before = none;
}

parsed : parse indexed dsl ≡ ok query
unfolding parse lex is_whitespace is_ascii_alphanumeric is_ascii_digit ascii_upper ascii_lower
    validate_field is_sql_ident is_ascii_alphabetic cidr_contains parse_unsigned split_once split
    contains
parsed = refl

parse-SafeQuery_example : SafeQuery indexed query
parse-SafeQuery_example = parse-SafeQuery indexed dsl query parsed

parse_ends_example : parse indexed dsl ≢ err out_of_fuel
parse_ends_example = parse_ends indexed dsl

to_sql-placeholders_example : placeholders (to_sql query).0 ≡ length (to_sql query).1
to_sql-placeholders_example = to_sql-placeholders indexed dsl query parsed

to_sql-change_values_example :
    (to_sql (change_values (λ v. codes "' OR 1=1 --" ++ v) query)).0 ≡ (to_sql query).0
to_sql-change_values_example = to_sql-change_values (λ v. codes "' OR 1=1 --" ++ v) query

-- An alert that embeds its event.
abbrev alert : Value
alert = obj (
    Fields.field (codes "event") (obj (Fields.field (codes "src_ip") (str (codes "10.1.2.3")) end))
      end)

abbrev no_element : Value → Option Value
no_element v = none

abbrev src_ip_is : Text → Expr
src_ip_is v = cond (Condition.field (codes "src_ip") v MatchMode.exact)

abbrev app_is : Text → Expr
app_is v = cond (Condition.field (codes "app") v MatchMode.exact)

abbrev filter : Expr
filter = either (app_is (codes "x")) (negate (src_ip_is (codes "10.0.0.1")))

filter-NegatedPresent : NegatedPresent (λ s. s) no_element filter alert
unfolding NegatedPresent AllPresent resolved
filter-NegatedPresent = (tt, λ e. some-ne-none _ e)

eval_json-three_valued_example :
    eval_json (λ s. s) no_element filter alert ≡ holds (eval3 (λ s. s) no_element filter alert)
eval_json-three_valued_example =
    eval_json-three_valued (λ s. s) no_element filter alert filter-NegatedPresent
