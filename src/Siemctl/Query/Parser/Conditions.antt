-- ===== src/Siemctl/Query/Parser/Conditions.antt =====
-- src/siemctl/src/query.rs, `Parser`: what the parsers of conditions yield.
use headless_siem.Prelude.{
  ℕ, suc, subst, ◌<◌, ◌≡◌, sym, Text, codes, to_ascii_lowercase, Bool, true, false, List, [], ◌∷◌,
  length, ◌==◌, nat_eq, list_eq, if◌then◌else◌, arith, inl, inr,
}
use headless_siem.Prelude.Results.{Result, ok, ◌>>=◌, Result-cases}
use headless_siem.Siemctl.Db.{MatchMode}
use headless_siem.Siemctl.Db.Cidr.{cidr_contains}
use headless_siem.Siemctl.Query.Syntax.{
  Tok, Condition, field, text, Expr, both, either, negate, cond, QueryError,
}
use headless_siem.Siemctl.Query.Parser.{
  validate_field, parse_arguments, expect_rparen, two_args, one_arg, checked_cidr, cidr_result,
  field_fn, map_function, parse_func_call, parse_comparison, parse_named,
}
use headless_siem.Siemctl.Query.Parser.Atoms.{
  Good, GoodValue, Good-bind, Good-bind_value, GoodValue-bind, check-value, validate_field-Checks,
  Any, parse_arguments-Good, expect_rparen-Good,
}

module _ (valid : List Text) where
  -- Every field has passed the check.
  abbrev pub GoodCondition : Condition → Type 0
  GoodCondition (field f v mode) = validate_field valid f ≡ ok tt
  GoodCondition (text needle) = Unit

  abbrev pub GoodExpr : Expr → Type 0
  GoodExpr (both a b) = GoodExpr a × GoodExpr b
  GoodExpr (either a b) = GoodExpr a × GoodExpr b
  GoodExpr (negate e) = GoodExpr e
  GoodExpr (cond c) = GoodCondition c

  validated :
      (f v : Text) (mode : MatchMode)
      → GoodValue GoodCondition (validate_field valid f >>= λ u. ok (field f v mode))
  validated f v mode =
      GoodValue-bind (λ u. validate_field valid f ≡ ok tt) GoodCondition (validate_field valid f)
        (λ u. ok (field f v mode))
        (check-value (validate_field valid) f (validate_field-Checks valid)) λ u h. h

  two_args-Good :
      (fname : Text) (args : List Text) (k : Text → Text → Result QueryError Condition)
      → ((a b : Text) → GoodValue GoodCondition (k a b))
      → GoodValue GoodCondition (two_args fname args k)
  two_args-Good fname (a ∷ b ∷ []) k h = h a b
  two_args-Good fname [] k h = λ e. cc
  two_args-Good fname (a ∷ []) k h = λ e. cc
  two_args-Good fname (a ∷ b ∷ c ∷ l) k h = λ e. cc

  one_arg-Good :
      (fname : Text) (args : List Text) (k : Text → Result QueryError Condition)
      → ((a : Text) → GoodValue GoodCondition (k a))
      → GoodValue GoodCondition (one_arg fname args k)
  one_arg-Good fname (a ∷ []) k h = h a
  one_arg-Good fname [] k h = λ e. cc
  one_arg-Good fname (a ∷ b ∷ l) k h = λ e. cc

  field_fn-Good :
      (fname : Text) (args : List Text) (mode : MatchMode)
      → GoodValue GoodCondition (field_fn valid fname args mode)
  unfolding field_fn
  field_fn-Good fname args mode =
      two_args-Good fname args
        (λ name value. validate_field valid name >>= λ u. ok (field name value mode))
        λ a b. validated a b mode

  checked_cidr-Good : (c : Text) → GoodValue Any (checked_cidr c)
  checked_cidr-Good c = elim (Result-cases (cidr_contains c (codes "0.0.0.0"))) [
    | inl e ↦ subst (λ r. GoodValue Any (cidr_result r)) (sym (e.1)) tt
    | inr e ↦ subst (λ r. GoodValue Any (cidr_result r)) (sym (e.1)) (λ x. cc)
  ]

  cidr-Good :
      (f c : Text)
      → GoodValue GoodCondition
          (validate_field valid f >>= λ u. checked_cidr c >>= λ b. ok (field f c MatchMode.cidr))
  cidr-Good f c =
      GoodValue-bind (λ u. validate_field valid f ≡ ok tt) GoodCondition (validate_field valid f)
        (λ u. checked_cidr c >>= λ b. ok (field f c MatchMode.cidr))
        (check-value (validate_field valid) f (validate_field-Checks valid))
        λ u h.
          GoodValue-bind Any GoodCondition (checked_cidr c) (λ b. ok (field f c MatchMode.cidr))
            (checked_cidr-Good c) λ b x. h

  if-Good :
      (b : Bool) (x y : Result QueryError Condition)
      → GoodValue GoodCondition x
      → GoodValue GoodCondition y
      → GoodValue GoodCondition (if b then x else y)
  if-Good true x y p q = p
  if-Good false x y p q = q

  map_function-Good :
      (name : Text) (args : List Text) → GoodValue GoodCondition (map_function valid name args)
  unfolding map_function
  map_function-Good name args =
      let fname = to_ascii_lowercase name in
      if-Good (fname == codes "startswith") _ _ (field_fn-Good fname args MatchMode.starting) (
        if-Good (fname == codes "endswith") _ _ (field_fn-Good fname args MatchMode.ending) (
          if-Good (fname == codes "contains") _ _ (field_fn-Good fname args MatchMode.containing) (
            if-Good (fname == codes "cidr_match") _ _ (two_args-Good fname args _ cidr-Good) (
              if-Good (fname == codes "any") _ _
                (one_arg-Good fname args _ (λ f. validated f [] MatchMode.any_value))
                (if-Good (fname == codes "raw_contains") _ _
                  (one_arg-Good fname args _ (λ needle. tt)) (λ e. cc))))))

  parse_func_call-Good :
      (name : Text) (ts : List Tok)
      → Good GoodExpr (suc (length ts)) (parse_func_call valid name ts)
  unfolding parse_func_call
  parse_func_call-Good name ts =
      Good-bind Any GoodExpr (suc (length ts)) (suc (length ts)) (parse_arguments ts) _
        (parse_arguments-Good ts)
        λ args rest lt u.
          Good-bind_value (λ left. length left < length rest) GoodExpr (suc (length ts))
            (expect_rparen rest) _ (expect_rparen-Good rest)
            λ left less.
              Good-bind_value GoodCondition GoodExpr (suc (length ts))
                (map_function valid name args) _ (map_function-Good name args)
                λ c p. (omega arith, p)

  comparison-Good :
      (name v : Text) (mode : MatchMode) (n : ℕ) (ts : List Tok)
      → length ts < n
      → Good GoodExpr n (validate_field valid name >>= λ u. ok (cond (field name v mode), ts))
  comparison-Good name v mode n ts lt =
      Good-bind_value (λ u. validate_field valid name ≡ ok tt) GoodExpr n
        (validate_field valid name) (λ u. ok (cond (field name v mode), ts))
        (check-value (validate_field valid) name (validate_field-Checks valid)) λ u p. (lt, p)

  parse_comparison-Good :
      (name : Text) (mode : MatchMode) (ts : List Tok)
      → Good GoodExpr (suc (length ts)) (parse_comparison valid name mode ts)
  unfolding parse_comparison
  parse_comparison-Good name mode [] = λ e. cc
  parse_comparison-Good name mode (Tok.word w ∷ ts) =
      comparison-Good name w mode (suc (suc (length ts))) ts (omega arith)
  parse_comparison-Good name mode (Tok.str w ∷ ts) =
      comparison-Good name w mode (suc (suc (length ts))) ts (omega arith)
  parse_comparison-Good name mode _ = λ e. cc

  pub parse_named-Good :
      (name : Text) (ts : List Tok) → Good GoodExpr (length ts) (parse_named valid name ts)
  unfolding parse_named
  parse_named-Good name (Tok.lparen ∷ ts) = parse_func_call-Good name ts
  parse_named-Good name (Tok.eq ∷ ts) = parse_comparison-Good name MatchMode.exact ts
  parse_named-Good name (Tok.ne ∷ ts) = parse_comparison-Good name MatchMode.not_exact ts
  parse_named-Good name _ = λ e. cc
