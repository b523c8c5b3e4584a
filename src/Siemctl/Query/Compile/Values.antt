-- ===== src/Siemctl/Query/Compile/Values.antt =====
-- src/siemctl/src/query.rs, `to_sql`: the values of a query reach SQLite as bound parameters only.
use headless_siem.Prelude.{◌≡◌, refl, ap, ap₂, Text, codes, Option, none, some, ◌++◌}
use headless_siem.Siemctl.Db.{exact, not_exact, starting, ending, containing, cidr, any_value}
use headless_siem.Siemctl.Query.Syntax.{
  Condition, field, text, Expr, both, either, negate, cond, Query,
}
use headless_siem.Siemctl.Query.Compile.{to_sql, statement, where_clause, expr_sql, condition_sql}

-- A query with every value replaced.
module _ (change : Text → Text) where
  unfoldable pub change_condition : Condition → Condition
  change_condition (field f v mode) = field f (change v) mode
  change_condition (text needle) = text (change needle)

  unfoldable pub change_expr : Expr → Expr
  unfolding change_condition
  change_expr (both a b) = both (change_expr a) (change_expr b)
  change_expr (either a b) = either (change_expr a) (change_expr b)
  change_expr (negate e) = negate (change_expr e)
  change_expr (cond c) = cond (change_condition c)

  abbrev change_option : Option Expr → Option Expr
  change_option none = none
  change_option (some e) = some (change_expr e)

  unfoldable pub change_values : Query → Query
  unfolding change_expr
  change_values q = record q { expr = change_option q.expr }

  condition_sql-change :
      (c : Condition) → (condition_sql (change_condition c)).0 ≡ (condition_sql c).0
  unfolding condition_sql change_condition
  condition_sql-change (field f v exact) = refl
  condition_sql-change (field f v not_exact) = refl
  condition_sql-change (field f v starting) = refl
  condition_sql-change (field f v ending) = refl
  condition_sql-change (field f v containing) = refl
  condition_sql-change (field f v cidr) = refl
  condition_sql-change (field f v any_value) = refl
  condition_sql-change (text needle) = refl

  expr_sql-change : (e : Expr) → (expr_sql (change_expr e)).0 ≡ (expr_sql e).0
  unfolding expr_sql change_expr
  expr_sql-change (both a b) =
      ap₂ (λ (s t : Text). codes "(" ++ s ++ codes " AND " ++ t ++ codes ")") (expr_sql-change a)
        (expr_sql-change b)
  expr_sql-change (either a b) =
      ap₂ (λ (s t : Text). codes "(" ++ s ++ codes " OR " ++ t ++ codes ")") (expr_sql-change a)
        (expr_sql-change b)
  expr_sql-change (negate e) =
      ap (λ (s : Text). codes "(NOT " ++ s ++ codes ")") (expr_sql-change e)
  expr_sql-change (cond c) = condition_sql-change c

  where_clause-change : (e : Option Expr) → (where_clause (change_option e)).0 ≡ (where_clause e).0
  unfolding where_clause
  where_clause-change none = refl
  where_clause-change (some e) = ap (λ (s : Text). codes " WHERE " ++ s) (expr_sql-change e)

  -- When every value that a query compares with is replaced by any function of it, the SQL text of
  -- the query stays the same.
  pub to_sql-change_values : (q : Query) → (to_sql (change_values q)).0 ≡ (to_sql q).0
  unfolding to_sql change_values
  to_sql-change_values q = ap (statement q.group_by q.limit) (where_clause-change q.expr)
