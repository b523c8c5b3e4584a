-- ===== src/Siemctl/Query/Compile/Placeholders.antt =====
-- src/siemctl/src/query.rs, `to_sql` behind `parse`: the bound parameters meet the placeholders.
use headless_siem.Prelude.{
  ℕ, ◌+◌, ◌≡◌, refl, sym, ap, ◌∙◌, Text, codes, decimal, is_ascii_digit, is_ascii_alphabetic,
  is_ascii_alphanumeric, Bool, true, false, ◌||◌, Option, none, some, List, [], ◌∷◌, ◌++◌, all,
  length, length-append, ◌==◌, nat_eq, if◌then◌else◌, arith, and_left, and_right,
}
use headless_siem.Prelude.{==_of_ne}
use mathlib.Core.Bool.{true≢false}
use headless_siem.Prelude.Numerals.{decimal-digits}
use headless_siem.Prelude.Results.{ok}
use headless_siem.Siemctl.Db.{exact, not_exact, starting, ending, containing, cidr, any_value}
use headless_siem.Siemctl.Query.Syntax.{
  Condition, field, text, Expr, both, either, negate, cond, Query,
}
use headless_siem.Siemctl.Query.Parser.{is_sql_ident, parse}
use headless_siem.Siemctl.Query.Parser.Whole.{
  IfSome, IsField, ConditionFields, ExprFields, AllNames, parse-SafeQuery,
}
use headless_siem.Siemctl.Query.Compile.{
  to_sql, statement, where_clause, expr_sql, condition_sql, join_commas, limit_text,
}

-- The number of `?` in a text.
unfoldable pub placeholders : Text → ℕ
placeholders [] = 0
placeholders (c ∷ s) = (if c == b'?' then 1 else 0) + placeholders s

placeholders-append : (s t : Text) → placeholders (s ++ t) ≡ placeholders s + placeholders t
unfolding placeholders
placeholders-append [] t = omega arith
placeholders-append (c ∷ s) t = omega (arith, placeholders-append s t)

other_char : (p : ℕ → Bool) (c : ℕ) → p b'?' ≡ false → p c ≡ true → (c == b'?') ≡ false
other_char p c q h = ==_of_ne c b'?' (λ e. true≢false (sym h ∙ ap p e ∙ q))

placeholders-all : (p : ℕ → Bool) (s : Text) → p b'?' ≡ false → all p s ≡ true → placeholders s ≡ 0
unfolding placeholders
placeholders-all p [] q h = refl
placeholders-all p (c ∷ s) q h =
    rw (other_char p c q (and_left (p c) (all p s) h))
      (omega (arith, placeholders-all p s q (and_right (p c) (all p s) h)))

ident_char : ℕ → Bool
ident_char d = is_ascii_alphanumeric d || d == b'_'

ident-no_mark : ident_char b'?' ≡ false
unfolding ident_char is_ascii_alphanumeric
ident-no_mark = refl

ident-chars : (name : Text) → is_sql_ident name ≡ true → all ident_char name ≡ true
unfolding is_sql_ident ident_char is_ascii_alphanumeric is_ascii_alphabetic is_ascii_digit
ident-chars [] h = refl
ident-chars (c ∷ s) h = ground (arith, h)

placeholders-ident : (name : Text) → is_sql_ident name ≡ true → placeholders name ≡ 0
placeholders-ident name h = placeholders-all ident_char name ident-no_mark (ident-chars name h)

-- A name in front of a text.
behind : (f s : Text) → is_sql_ident f ≡ true → placeholders (f ++ s) ≡ placeholders s
behind f s h = omega (arith, placeholders-append f s, placeholders-ident f h)

condition_sql-placeholders :
    (valid : List Text) (c : Condition)
    → ConditionFields valid c
    → placeholders (condition_sql c).0 ≡ length (condition_sql c).1
unfolding condition_sql placeholders
condition_sql-placeholders valid (field f v exact) h = behind f (codes " = ?") h.0
condition_sql-placeholders valid (field f v not_exact) h = behind f (codes " != ?") h.0
condition_sql-placeholders valid (field f v starting) h = behind f (codes " LIKE ?") h.0
condition_sql-placeholders valid (field f v ending) h = behind f (codes " LIKE ?") h.0
condition_sql-placeholders valid (field f v containing) h =
    behind f (codes " LIKE ? COLLATE NOCASE") h.0
condition_sql-placeholders valid (field f v cidr) h = omega (
  arith,
  placeholders-append (codes "cidr_match(" ++ f) (codes ", ?)"),
  placeholders-append (codes "cidr_match(") f,
  placeholders-ident f h.0,
)
condition_sql-placeholders valid (field f v any_value) h = behind f (codes " != ''") h.0
condition_sql-placeholders valid (text needle) h = refl

-- Two predicates in parentheses, with a word between them that holds no placeholder.
joined-placeholders :
    (word a b : Text)
    → placeholders word ≡ 0
    → placeholders (codes "(" ++ a ++ word ++ b ++ codes ")") ≡ placeholders a + placeholders b
unfolding placeholders
joined-placeholders word a b h = omega (
  arith,
  placeholders-append (codes "(" ++ a ++ word ++ b) (codes ")"),
  placeholders-append (codes "(" ++ a ++ word) b,
  placeholders-append (codes "(" ++ a) word,
  placeholders-append (codes "(") a,
)

negated-placeholders : (a : Text) → placeholders (codes "(NOT " ++ a ++ codes ")") ≡ placeholders a
unfolding placeholders
negated-placeholders a = omega (
  arith,
  placeholders-append (codes "(NOT " ++ a) (codes ")"),
  placeholders-append (codes "(NOT ") a,
)

expr_sql-placeholders :
    (valid : List Text) (e : Expr)
    → ExprFields valid e
    → placeholders (expr_sql e).0 ≡ length (expr_sql e).1
unfolding expr_sql
expr_sql-placeholders valid (both a b) h =
    joined-placeholders (codes " AND ") (expr_sql a).0 (expr_sql b).0 (unfold placeholders in refl)
    ∙ omega (
      arith,
      length-append (expr_sql a).1 (expr_sql b).1,
      expr_sql-placeholders valid a h.0,
      expr_sql-placeholders valid b h.1,
    )
expr_sql-placeholders valid (either a b) h =
    joined-placeholders (codes " OR ") (expr_sql a).0 (expr_sql b).0 (unfold placeholders in refl)
    ∙ omega (
      arith,
      length-append (expr_sql a).1 (expr_sql b).1,
      expr_sql-placeholders valid a h.0,
      expr_sql-placeholders valid b h.1,
    )
expr_sql-placeholders valid (negate e) h =
    negated-placeholders (expr_sql e).0 ∙ expr_sql-placeholders valid e h
expr_sql-placeholders valid (cond c) h = condition_sql-placeholders valid c h

where_clause-placeholders :
    (valid : List Text) (e : Option Expr)
    → IfSome (ExprFields valid) e
    → placeholders (where_clause e).0 ≡ length (where_clause e).1
unfolding where_clause placeholders
where_clause-placeholders valid none h = refl
where_clause-placeholders valid (some e) h =
    omega
      (arith, placeholders-append (codes " WHERE ") (expr_sql e).0, expr_sql-placeholders valid e h)

join_commas-placeholders :
    (valid : List Text) (fs : List Text)
    → AllNames (IsField valid) fs
    → placeholders (join_commas fs) ≡ 0
unfolding join_commas placeholders
join_commas-placeholders valid [] h = refl
join_commas-placeholders valid (f ∷ []) h = placeholders-ident f (h.0.0)
join_commas-placeholders valid (f ∷ g ∷ fs) h = omega (
  arith,
  placeholders-append (f ++ codes ", ") (join_commas (g ∷ fs)),
  behind f (codes ", ") (h.0.0),
  join_commas-placeholders valid (g ∷ fs) h.1,
)

limit_text-placeholders : (limit : Option ℕ) → placeholders (limit_text limit) ≡ 0
unfolding limit_text placeholders
limit_text-placeholders none = refl
limit_text-placeholders (some n) = omega (
  arith,
  placeholders-append (codes " LIMIT ") (decimal n),
  placeholders-all is_ascii_digit (decimal n) (unfold is_ascii_digit in refl) (decimal-digits n),
)

statement-placeholders :
    (valid : List Text) (fields : Option (List Text)) (limit : Option ℕ) (w : Text)
    → IfSome (AllNames (IsField valid)) fields
    → placeholders (statement fields limit w) ≡ placeholders w
unfolding statement placeholders
statement-placeholders valid none limit w h = omega (
  arith,
  placeholders-append (codes "SELECT * FROM events" ++ w) (limit_text limit),
  placeholders-append (codes "SELECT * FROM events") w,
  limit_text-placeholders limit,
)
statement-placeholders valid (some fs) limit w h = omega (
  arith,
  placeholders-append
      (codes "SELECT "
        ++ join_commas fs
        ++ codes ", COUNT(*) FROM events"
        ++ w
        ++ codes " GROUP BY ")
      (join_commas fs),
  placeholders-append (codes "SELECT " ++ join_commas fs ++ codes ", COUNT(*) FROM events" ++ w)
      (codes " GROUP BY "),
  placeholders-append (codes "SELECT " ++ join_commas fs ++ codes ", COUNT(*) FROM events") w,
  placeholders-append (codes "SELECT " ++ join_commas fs) (codes ", COUNT(*) FROM events"),
  placeholders-append (codes "SELECT ") (join_commas fs),
  join_commas-placeholders valid fs h,
)

-- The SQL text of every query that `parse` accepts has as many placeholders as parameters are bound.
pub to_sql-placeholders :
    (valid : List Text) (dsl : Text) (q : Query)
    → parse valid dsl ≡ ok q
    → placeholders (to_sql q).0 ≡ length (to_sql q).1
unfolding to_sql
to_sql-placeholders valid dsl q h =
    let safe = parse-SafeQuery valid dsl q h in
    statement-placeholders valid q.group_by q.limit (where_clause q.expr).0 (safe.group_fields)
    ∙ where_clause-placeholders valid q.expr (safe.expr_fields)
