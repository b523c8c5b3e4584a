-- ===== src/Siemctl/Query/Parser/Whole.antt =====
-- src/siemctl/src/query.rs, `parse_query` and `Query::parse`: parsing ends, and every field name of a
-- parsed query is a checked identifier.
use headless_siem.Prelude.{
  ℕ, suc, ◌^◌, ◌≤◌, ◌≡◌, ◌≢◌, ◌⊎◌, refl, ap, ◌∙◌, Text, true, List, [], ◌∷◌, Option, none, some,
  length, any, parse_unsigned, ◌==◌, nat_eq, list_eq, arith, inl, inr, subst,
}
use headless_siem.Prelude.Results.{Result, ok, err, ◌>>=◌, Result-cases}
use headless_siem.Siemctl.Query.Syntax.{
  Tok, Condition, field, text, Expr, both, either, negate, cond, Query, QueryError, out_of_fuel,
}
use headless_siem.Siemctl.Query.Lexer.{lex}
use headless_siem.Siemctl.Query.Lexer.Total.{lex-Ends}
use headless_siem.Siemctl.Query.Parser.{
  Parsed, is_sql_ident, validate_field, output_check, parse_select_fields, parse_identlist,
  some_first, select_clause, skip_where, predicate, group_clause, limit_of, limit_clause, at_end,
  parse_or, parse_query, parse, enough_fuel,
}
use headless_siem.Siemctl.Query.Parser.Atoms.{
  Good, GoodValue, Good-bind, Good-mono, AllPass, Any, name_list-Good, output_check-Checks,
  validate_field-Checks,
}
use headless_siem.Siemctl.Query.Parser.Conditions.{GoodExpr}
use headless_siem.Siemctl.Query.Parser.Levels.{enough-or_level}

abbrev pub IfSome : {A : Type 0} → (A → Type 0) → Option A → Type 0
IfSome P none = Unit
IfSome P (some a) = P a

module _ (valid : List Text) where
  some_first-Good :
      {A : Type 0} (P : A → Type 0) (m n : ℕ) (r : Parsed A)
      → Good P m r
      → m ≤ n
      → Good (IfSome P) n (r >>= some_first)
  some_first-Good P m n r h le =
      Good-bind P (IfSome P) m n r some_first h λ a rest lt p. (omega arith, p)

  select_clause-Good :
      (ts : List Tok) → Good (IfSome (AllPass output_check)) (suc (length ts)) (select_clause ts)
  unfolding select_clause parse_select_fields
  select_clause-Good (Tok.select ∷ ts) =
      some_first-Good (AllPass output_check) (length ts) (suc (suc (length ts)))
        (parse_select_fields ts) (name_list-Good output_check output_check-Checks ts) (omega arith)
  select_clause-Good _ = (omega arith, tt)

  length-skip_where : (ts : List Tok) → length (skip_where ts) ≤ length ts
  unfolding skip_where
  length-skip_where (Tok.where_word ∷ ts) = omega arith
  length-skip_where _ = omega arith

  predicate_or-Good :
      (ts : List Tok)
      → Good
          (IfSome (GoodExpr valid))
          (suc (length ts))
          (parse_or valid (enough_fuel ts) ts >>= some_first)
  unfolding enough_fuel
  predicate_or-Good ts =
      some_first-Good (GoodExpr valid) (length ts) (suc (length ts))
        (parse_or valid (enough_fuel ts) ts)
        (enough-or_level valid (enough_fuel ts) ts (omega arith)) (omega arith)

  predicate-Good :
      (ts : List Tok) → Good (IfSome (GoodExpr valid)) (suc (length ts)) (predicate valid ts)
  unfolding predicate
  predicate-Good [] = (omega arith, tt)
  predicate-Good (Tok.group ∷ ts) = (omega arith, tt)
  predicate-Good (Tok.limit ∷ ts) = (omega arith, tt)
  predicate-Good (t ∷ ts) = predicate_or-Good (t ∷ ts)

  group_clause-Good :
      (ts : List Tok)
      → Good (IfSome (AllPass (validate_field valid))) (suc (length ts)) (group_clause valid ts)
  unfolding group_clause parse_identlist
  group_clause-Good (Tok.group ∷ Tok.by ∷ ts) =
      some_first-Good (AllPass (validate_field valid)) (length ts) (suc (suc (suc (length ts))))
        (parse_identlist valid ts)
        (name_list-Good (validate_field valid) (validate_field-Checks valid) ts) (omega arith)
  group_clause-Good (Tok.group ∷ _) = λ e. cc
  group_clause-Good _ = (omega arith, tt)

  limit_of-Good :
      (w : Text) (n : Option ℕ) (ts : List Tok) → Good Any (suc (length ts)) (limit_of w n ts)
  unfolding limit_of
  limit_of-Good w none ts = λ e. cc
  limit_of-Good w (some n) ts = (omega arith, tt)

  limit_clause-Good : (ts : List Tok) → Good Any (suc (length ts)) (limit_clause ts)
  unfolding limit_clause
  limit_clause-Good (Tok.limit ∷ Tok.word w ∷ ts) =
      Good-mono Any (suc (length ts)) (suc (suc (suc (length ts))))
        (limit_of w (parse_unsigned (2 ^ 64) w) ts) (omega arith)
        (limit_of-Good w (parse_unsigned (2 ^ 64) w) ts)
  limit_clause-Good (Tok.limit ∷ _) = λ e. cc
  limit_clause-Good _ = (omega arith, tt)

  GoodQuery : Query → Type 0
  GoodQuery q =
      IfSome (AllPass output_check) q.select
      × IfSome (GoodExpr valid) q.expr
      × IfSome (AllPass (validate_field valid)) q.group_by

  Good-end :
      {A : Type 0} (P : A → Type 0) (m : ℕ) (r : Parsed A)
      (k : A × List Tok → Result QueryError Query)
      → Good P m r
      → ((a : A) (rest : List Tok) → P a → GoodValue GoodQuery (k (a, rest)))
      → GoodValue GoodQuery (r >>= k)
  Good-end P m (ok (a, rest)) k h f = f a rest h.1
  Good-end P m (err x) k h f = h

  at_end-Good : (q : Query) (ts : List Tok) → GoodQuery q → GoodValue GoodQuery (at_end q ts)
  unfolding at_end
  at_end-Good q [] h = h
  at_end-Good q (t ∷ ts) h = λ e. cc

  parse_query-Good : (ts : List Tok) → GoodValue GoodQuery (parse_query valid ts)
  unfolding parse_query GoodQuery
  parse_query-Good ts =
      Good-end (IfSome (AllPass output_check)) (suc (length ts)) (select_clause ts) _
        (select_clause-Good ts)
        λ select ts₁ s.
          Good-end (IfSome (GoodExpr valid)) (suc (length (skip_where ts₁)))
            (predicate valid (skip_where ts₁)) _ (predicate-Good (skip_where ts₁))
            λ expr ts₂ e.
              Good-end (IfSome (AllPass (validate_field valid))) (suc (length ts₂))
                (group_clause valid ts₂) _ (group_clause-Good ts₂)
                λ group_by ts₃ g.
                  Good-end Any (suc (length ts₃)) (limit_clause ts₃) _ (limit_clause-Good ts₃)
                    λ limit ts₄ u.
                      at_end-Good
                        (record {
                          select = select;
                          expr = expr;
                          group_by = group_by;
                          limit = limit;
                          after = none;
                          before = none;
                        })
                        ts₄ (s, e, g)

-- A name that may stand in an SQL text, and among the indexed fields if there are any.
abbrev pub IsField : List Text → Text → Type 0
IsField valid name =
    (is_sql_ident name ≡ true) × ((valid ≡ []) ⊎ (any (λ v. v == name) valid ≡ true))

abbrev pub ConditionFields : List Text → Condition → Type 0
ConditionFields valid (field f v mode) = IsField valid f
ConditionFields valid (text needle) = Unit

abbrev pub ExprFields : List Text → Expr → Type 0
ExprFields valid (both a b) = ExprFields valid a × ExprFields valid b
ExprFields valid (either a b) = ExprFields valid a × ExprFields valid b
ExprFields valid (negate e) = ExprFields valid e
ExprFields valid (cond c) = ConditionFields valid c

abbrev pub AllNames : (Text → Type 0) → List Text → Type 0
AllNames P [] = Unit
AllNames P (n ∷ ns) = P n × AllNames P ns

pub record SafeQuery (valid : List Text) (q : Query) : Type 0 where
  pub select_names : IfSome (AllNames (λ n. is_sql_ident n ≡ true)) q.select
  pub expr_fields : IfSome (ExprFields valid) q.expr
  pub group_fields : IfSome (AllNames (IsField valid)) q.group_by

validated-IsField :
    (valid : List Text) (name : Text) → validate_field valid name ≡ ok tt → IsField valid name
unfolding validate_field
validated-IsField [] name h = (ground (arith, h), inl refl)
validated-IsField (f ∷ fs) name h = (ground (arith, h), inr (ground (arith, h)))

output-ident : (name : Text) → output_check name ≡ ok tt → is_sql_ident name ≡ true
unfolding output_check
output-ident name h = ground (arith, h)

AllPass-names :
    (check : Text → Result QueryError (Unit {0})) (P : Text → Type 0) (ns : List Text)
    → ((n : Text) → check n ≡ ok tt → P n)
    → AllPass check ns
    → AllNames P ns
AllPass-names check P [] f h = tt
AllPass-names check P (n ∷ ns) f h = (f n h.0, AllPass-names check P ns f h.1)

IfSome-map :
    {A : Type 0} (P Q : A → Type 0) (o : Option A) → ((a : A) → P a → Q a) → IfSome P o → IfSome Q o
IfSome-map P Q none f h = tt
IfSome-map P Q (some a) f h = f a h

GoodExpr-fields : (valid : List Text) (e : Expr) → GoodExpr valid e → ExprFields valid e
GoodExpr-fields valid (both a b) h = (GoodExpr-fields valid a h.0, GoodExpr-fields valid b h.1)
GoodExpr-fields valid (either a b) h = (GoodExpr-fields valid a h.0, GoodExpr-fields valid b h.1)
GoodExpr-fields valid (negate e) h = GoodExpr-fields valid e h
GoodExpr-fields valid (cond (field f v mode)) h = validated-IsField valid f h
GoodExpr-fields valid (cond (text needle)) h = tt

GoodQuery-SafeQuery : (valid : List Text) (q : Query) → GoodQuery valid q → SafeQuery valid q
unfolding GoodQuery
GoodQuery-SafeQuery valid q h = record {
  select_names =
      IfSome-map (AllPass output_check) (AllNames (λ n. is_sql_ident n ≡ true)) q.select
        (λ ns. AllPass-names output_check (λ n. is_sql_ident n ≡ true) ns output-ident) (h.0);
  expr_fields = IfSome-map (GoodExpr valid) (ExprFields valid) q.expr (GoodExpr-fields valid) (h.1);
  group_fields =
      IfSome-map (AllPass (validate_field valid)) (AllNames (IsField valid)) q.group_by
        (λ ns. AllPass-names (validate_field valid) (IsField valid) ns (validated-IsField valid))
        (h.2);
}

parse-GoodQuery : (valid : List Text) (dsl : Text) → GoodValue (GoodQuery valid) (parse valid dsl)
unfolding parse
parse-GoodQuery valid dsl = elim (Result-cases (lex dsl)) [
  | inl (ts, e) ↦ rw e (parse_query-Good valid ts)
  | inr (x, e) ↦ rw e (λ h. lex-Ends dsl (e ∙ ap err h))
]

no_fuel_error :
    (P : Query → Type 0) (r : Result QueryError Query) → GoodValue P r → r ≢ err out_of_fuel
no_fuel_error P (ok q) h = λ e. cc
no_fuel_error P (err x) h = λ e. h (ground (arith, e))

-- On any text, `parse` gives a query or one of the source's own errors: the fuel of the model's
-- lexer and parser never runs out.
pub parse_ends : (valid : List Text) (dsl : Text) → parse valid dsl ≢ err out_of_fuel
parse_ends valid dsl = no_fuel_error (GoodQuery valid) (parse valid dsl) (parse-GoodQuery valid dsl)

-- Every query that `parse` accepts is safe to put into an SQL text: the names of its `SELECT`, of its
-- `GROUP BY` and of its conditions are identifiers of ASCII letters, digits and `_` that begin with no
-- digit, and the last two kinds are indexed fields, unless the set of the indexed fields is empty.
pub parse-SafeQuery :
    (valid : List Text) (dsl : Text) (q : Query) → parse valid dsl ≡ ok q → SafeQuery valid q
parse-SafeQuery valid dsl q h =
    GoodQuery-SafeQuery valid q (subst (GoodValue (GoodQuery valid)) h (parse-GoodQuery valid dsl))
