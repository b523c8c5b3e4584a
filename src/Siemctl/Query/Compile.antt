-- ===== src/Siemctl/Query/Compile.antt =====
-- src/siemctl/src/query.rs, `to_sql`: a query as an SQL text with its bound parameters.
pub mod Values
pub mod Placeholders
use headless_siem.Prelude.{ℕ, Text, codes, decimal, Option, none, some, List, [], ◌∷◌, ◌++◌}
use headless_siem.Siemctl.Db.{
  MatchMode, exact, not_exact, starting, ending, containing, cidr, any_value,
}
use headless_siem.Siemctl.Query.Syntax.{
  Condition, field, text, Expr, both, either, negate, cond, Query,
}

-- The predicate, and the parameters that it pushes, in order.
pub condition_sql : Condition → Text × List Text
condition_sql (field f v exact) = (f ++ codes " = ?", v ∷ [])
condition_sql (field f v not_exact) = (f ++ codes " != ?", v ∷ [])
condition_sql (field f v starting) = (f ++ codes " LIKE ?", (v ++ codes "%") ∷ [])
condition_sql (field f v ending) = (f ++ codes " LIKE ?", (codes "%" ++ v) ∷ [])
condition_sql (field f v containing) =
    (f ++ codes " LIKE ? COLLATE NOCASE", (codes "%" ++ v ++ codes "%") ∷ [])
condition_sql (field f v cidr) = (codes "cidr_match(" ++ f ++ codes ", ?)", v ∷ [])
condition_sql (field f v any_value) = (f ++ codes " != ''", [])
condition_sql (text needle) = (codes "raw_contains(raw_file, byte_offset, ?)", needle ∷ [])

abbrev joined : Text → Text × List Text → Text × List Text → Text × List Text
joined word (a, ps) (b, qs) = (codes "(" ++ a ++ word ++ b ++ codes ")", ps ++ qs)

abbrev negated : Text × List Text → Text × List Text
negated (a, ps) = (codes "(NOT " ++ a ++ codes ")", ps)

pub expr_sql : Expr → Text × List Text
unfolding condition_sql
expr_sql (both a b) = joined (codes " AND ") (expr_sql a) (expr_sql b)
expr_sql (either a b) = joined (codes " OR ") (expr_sql a) (expr_sql b)
expr_sql (negate e) = negated (expr_sql e)
expr_sql (cond c) = condition_sql c

where_clause : Option Expr → Text × List Text
unfolding expr_sql
where_clause none = ([], [])
where_clause (some e) = (codes " WHERE " ++ (expr_sql e).0, (expr_sql e).1)

-- `fields.join(", ")`
pub join_commas : List Text → Text
join_commas [] = []
join_commas (f ∷ []) = f
join_commas (f ∷ g ∷ fs) = f ++ codes ", " ++ join_commas (g ∷ fs)

limit_text : Option ℕ → Text
limit_text none = []
limit_text (some n) = codes " LIMIT " ++ decimal n

-- Row mode or group mode; in group mode the limit is applied behind the merge.
statement : Option (List Text) → Option ℕ → Text → Text
unfolding join_commas limit_text
statement none limit where_text = codes "SELECT * FROM events" ++ where_text ++ limit_text limit
statement (some fields) limit where_text =
    codes "SELECT "
    ++ join_commas fields
    ++ codes ", COUNT(*) FROM events"
    ++ where_text
    ++ codes " GROUP BY "
    ++ join_commas fields

unfoldable pub to_sql : Query → Text × List Text
unfolding statement where_clause
to_sql q = (statement q.group_by q.limit (where_clause q.expr).0, (where_clause q.expr).1)
