-- ===== src/Siemctl/Query/Syntax.antt =====
-- src/siemctl/src/query.rs: tokens, errors, conditions and queries.
use headless_siem.Prelude.{ℕ, Text, Option, List}
use headless_siem.Siemctl.Db.{MatchMode}
use headless_siem.Siemctl.Db.Cidr.{CidrError}
use headless_siem.Siemctl.Time.{HourBucket}

pub data Tok : Type 0 where
  select where_word group by limit and or not eq ne lparen rparen comma : Tok
  word str : Text → Tok

pub data Condition : Type 0 where
  field : Text → Text → MatchMode → Condition
  text : Text → Condition

pub data Expr : Type 0 where
  both : Expr → Expr → Expr
  either : Expr → Expr → Expr
  negate : Expr → Expr
  cond : Condition → Expr

pub record Query : Type 0 where
  pub select : Option (List Text)
  pub expr : Option Expr
  pub group_by : Option (List Text)
  pub limit : Option ℕ
  pub after : Option HourBucket
  pub before : Option HourBucket

-- The messages. `out_of_fuel` is the model's own, and no run of `parse` ends with it.
pub data QueryError : Type 0 where
  unterminated_string lone_bang lone_less expected_by : QueryError
  unexpected_char : ℕ → QueryError
  expected_number : Option Tok → QueryError
  invalid_limit : Text → QueryError
  trailing_input : Tok → QueryError
  expected_field : Option Tok → QueryError
  invalid_field : Text → QueryError
  unknown_field : Text → QueryError
  expected_rparen : Option Tok → QueryError
  expected_operator : Text → Option Tok → QueryError
  expected_condition : Option Tok → QueryError
  expected_value : Option Tok → QueryError
  expected_argument : Option Tok → QueryError
  expected_separator : Option Tok → QueryError
  wrong_arity : Text → ℕ → ℕ → QueryError
  bad_cidr : CidrError → QueryError
  unknown_function : Text → QueryError
  out_of_fuel : QueryError
