-- ===== src/Siemctl/Query/Parser.antt =====
-- src/siemctl/src/query.rs, `Parser` and `Query::parse`: recursive descent over the tokens. The
-- state, `toks` from `pos` on, is the list of the tokens that are left. `valid` is the set of the
-- indexed fields.
pub mod Atoms
pub mod Conditions
pub mod Levels
pub mod Whole
use headless_siem.Prelude.{
  ℕ, zero, suc, ◌+◌, ◌*◌, ◌^◌, Text, codes, to_ascii_lowercase, is_ascii_alphabetic,
  is_ascii_alphanumeric, Bool, true, false, ◌&&◌, ◌||◌, not, Option, none, some, List, [], ◌∷◌,
  ◌++◌, all, any, length, parse_unsigned, ◌==◌, nat_eq, list_eq, if◌then◌else◌,
}
use headless_siem.Prelude.Results.{Result, ok, err, ◌>>=◌, ◌>>◌}
use headless_siem.Siemctl.Db.{MatchMode}
use headless_siem.Siemctl.Db.Cidr.{CidrError, cidr_contains}
use headless_siem.Siemctl.Query.Lexer.{lex}
use headless_siem.Siemctl.Query.Syntax.{
  Tok, Condition, field, text, Expr, both, either, negate, cond, Query, QueryError, expected_by,
  expected_number, invalid_limit, trailing_input, expected_field, invalid_field, unknown_field,
  expected_rparen, expected_operator, expected_condition, expected_value, expected_argument,
  expected_separator, wrong_arity, bad_cidr, unknown_function, out_of_fuel,
}

abbrev pub Parsed : Type 0 → Type 0
Parsed A = Result QueryError (A × List Tok)

abbrev pub peek : List Tok → Option Tok
peek [] = none
peek (t ∷ ts) = some t

-- src/siemctl/src/main.rs
unfoldable pub is_sql_ident : Text → Bool
is_sql_ident [] = false
is_sql_ident (c ∷ s) =
    (is_ascii_alphabetic c || c == b'_') && all (λ d. is_ascii_alphanumeric d || d == b'_') s

-- An empty set of fields skips the second test.
unfoldable pub validate_field : List Text → Text → Result QueryError (Unit {0})
validate_field valid name =
    if not (is_sql_ident name) then err (invalid_field name) else elim valid [
      | [] ↦ ok tt
      | f ∷ fs ↦ if any (λ v. v == name) (f ∷ fs) then ok tt else err (unknown_field name)
    ]

abbrev pub name_of : Tok → Option Text
name_of (Tok.word w) = some w
name_of (Tok.str s) = some s
name_of _ = none

-- The token of a name, checked; `e` is the error at any other token.
pub checked_name : (Text → Result QueryError (Unit {0})) → Tok → Result QueryError Text
checked_name check t = elim (name_of t) [
  | none ↦ err (expected_field (some t))
  | some name ↦ check name >>= λ u. ok name
]

-- `parse_output_field`'s test.
pub output_check : Text → Result QueryError (Unit {0})
output_check name = if is_sql_ident name then ok tt else err (invalid_field name)

-- The loop of `parse_select_fields` and of `parse_identlist`, behind the first name.
pub more_names : (Text → Result QueryError (Unit {0})) → List Text → List Tok → Parsed (List Text)
more_names check acc (Tok.comma ∷ []) = err (expected_field none)
more_names check acc (Tok.comma ∷ t ∷ ts) = do
  name ← checked_name check t
  more_names check (acc ++ name ∷ []) ts
more_names check acc ts = ok (acc, ts)

pub name_list : (Text → Result QueryError (Unit {0})) → List Tok → Parsed (List Text)
unfolding checked_name more_names
name_list check [] = err (expected_field none)
name_list check (t ∷ ts) = do name ← checked_name check t; more_names check (name ∷ []) ts

pub parse_select_fields : List Tok → Parsed (List Text)
unfolding name_list output_check
parse_select_fields ts = name_list output_check ts

pub parse_identlist : List Text → List Tok → Parsed (List Text)
unfolding name_list
parse_identlist valid ts = name_list (validate_field valid) ts

-- The arguments of a call, up to the closing parenthesis, which stays.
mutual
  pub arguments : List Text → List Tok → Parsed (List Text)
  arguments acc [] = err (expected_argument none)
  arguments acc (t ∷ ts) = elim (name_of t) [
    | none ↦ err (expected_argument (some t))
    | some a ↦ after_argument (acc ++ a ∷ []) ts
  ]

  pub after_argument : List Text → List Tok → Parsed (List Text)
  after_argument acc (Tok.comma ∷ ts) = arguments acc ts
  after_argument acc (Tok.rparen ∷ ts) = ok (acc, Tok.rparen ∷ ts)
  after_argument acc ts = err (expected_separator (peek ts))

pub parse_arguments : List Tok → Parsed (List Text)
unfolding arguments
parse_arguments (Tok.rparen ∷ ts) = ok ([], Tok.rparen ∷ ts)
parse_arguments ts = arguments [] ts

pub expect_rparen : List Tok → Result QueryError (List Tok)
expect_rparen (Tok.rparen ∷ ts) = ok ts
expect_rparen ts = err (expected_rparen (peek ts))

-- `arity(&args, 2)`, then the arguments.
abbrev two_args :
    Text → List Text → (Text → Text → Result QueryError Condition) → Result QueryError Condition
two_args fname (a ∷ b ∷ []) k = k a b
two_args fname args k = err (wrong_arity fname 2 (length args))

abbrev one_arg :
    Text → List Text → (Text → Result QueryError Condition) → Result QueryError Condition
one_arg fname (a ∷ []) k = k a
one_arg fname args k = err (wrong_arity fname 1 (length args))

abbrev cidr_result : Result CidrError Bool → Result QueryError Bool
cidr_result (ok b) = ok b
cidr_result (err e) = err (bad_cidr e)

-- The address does not matter: what is asked is whether the range is well-formed.
abbrev checked_cidr : Text → Result QueryError Bool
checked_cidr c = cidr_result (cidr_contains c (codes "0.0.0.0"))

module _ (valid : List Text) where
  pub field_fn : Text → List Text → MatchMode → Result QueryError Condition
  field_fn fname args mode =
      two_args fname args
        λ name value. validate_field valid name >>= λ u. ok (field name value mode)

  pub map_function : Text → List Text → Result QueryError Condition
  unfolding field_fn
  map_function name args =
      let fname = to_ascii_lowercase name in
      if fname == codes "startswith"
      then field_fn fname args MatchMode.starting
      else if fname == codes "endswith"
      then field_fn fname args MatchMode.ending
      else if fname == codes "contains"
      then field_fn fname args MatchMode.containing
      else if fname == codes "cidr_match"
      then two_args fname args (λ f c.
        validate_field valid f >>= λ u. checked_cidr c >>= λ b. ok (field f c MatchMode.cidr))
      else if fname == codes "any"
      then one_arg fname args
          (λ f. validate_field valid f >>= λ u. ok (field f [] MatchMode.any_value))
      else if fname == codes "raw_contains"
      then one_arg fname args (λ needle. ok (text needle))
      else err (unknown_function fname)

  -- Behind the name and the opening parenthesis.
  pub parse_func_call : Text → List Tok → Parsed Expr
  unfolding parse_arguments expect_rparen map_function
  parse_func_call name ts = do
    (args, ts₁) ← parse_arguments ts
    ts₂ ← expect_rparen ts₁
    c ← map_function name args
    ok (cond c, ts₂)

  -- Behind the field and the operator.
  pub parse_comparison : Text → MatchMode → List Tok → Parsed Expr
  parse_comparison name mode [] = err (expected_value none)
  parse_comparison name mode (t ∷ ts) = elim (name_of t) [
    | none ↦ err (expected_value (some t))
    | some value ↦ validate_field valid name >>= λ u. ok (cond (field name value mode), ts)
  ]

  -- A condition, behind the name at its head.
  pub parse_named : Text → List Tok → Parsed Expr
  unfolding parse_func_call parse_comparison
  parse_named name (Tok.lparen ∷ ts) = parse_func_call name ts
  parse_named name (Tok.eq ∷ ts) = parse_comparison name MatchMode.exact ts
  parse_named name (Tok.ne ∷ ts) = parse_comparison name MatchMode.not_exact ts
  parse_named name ts = err (expected_operator name (peek ts))

  mutual
    pub parse_or : ℕ → List Tok → Parsed Expr
    parse_or zero ts = err out_of_fuel
    parse_or (suc f) ts = do (left, rest) ← parse_and f ts; or_loop f left rest

    pub or_loop : ℕ → Expr → List Tok → Parsed Expr
    or_loop zero left ts = err out_of_fuel
    or_loop (suc f) left (Tok.or ∷ ts) = do
      (right, rest) ← parse_and f ts
      or_loop f (either left right) rest
    or_loop (suc f) left ts = ok (left, ts)

    pub parse_and : ℕ → List Tok → Parsed Expr
    parse_and zero ts = err out_of_fuel
    parse_and (suc f) ts = do (left, rest) ← parse_not f ts; and_loop f left rest

    pub and_loop : ℕ → Expr → List Tok → Parsed Expr
    and_loop zero left ts = err out_of_fuel
    and_loop (suc f) left (Tok.and ∷ ts) = do
      (right, rest) ← parse_not f ts
      and_loop f (both left right) rest
    and_loop (suc f) left ts = ok (left, ts)

    pub parse_not : ℕ → List Tok → Parsed Expr
    parse_not zero ts = err out_of_fuel
    parse_not (suc f) (Tok.not ∷ ts) = do (e, rest) ← parse_not f ts; ok (negate e, rest)
    parse_not (suc f) ts = parse_primary f ts

    pub parse_primary : ℕ → List Tok → Parsed Expr
    parse_primary zero ts = err out_of_fuel
    parse_primary (suc f) (Tok.lparen ∷ ts) = do
      (e, rest) ← parse_or f ts
      rest' ← expect_rparen rest
      ok (e, rest')
    parse_primary (suc f) (Tok.word w ∷ ts) = parse_named w ts
    parse_primary (suc f) (Tok.str s ∷ ts) = parse_named s ts
    parse_primary (suc f) ts = err (expected_condition (peek ts))

-- Four calls for each token, and four more.
pub enough_fuel : List Tok → ℕ
enough_fuel ts = 4 * length ts + 4

abbrev pub some_first : {A : Type 0} → A × List Tok → Parsed (Option A)
some_first (a, ts) = ok (some a, ts)

pub select_clause : List Tok → Parsed (Option (List Text))
unfolding parse_select_fields
select_clause (Tok.select ∷ ts) = parse_select_fields ts >>= some_first
select_clause ts = ok (none, ts)

pub skip_where : List Tok → List Tok
skip_where (Tok.where_word ∷ ts) = ts
skip_where ts = ts

limit_of : Text → Option ℕ → List Tok → Parsed (Option ℕ)
limit_of w none ts = err (invalid_limit w)
limit_of w (some n) ts = ok (some n, ts)

-- `w.parse::<usize>()`
pub limit_clause : List Tok → Parsed (Option ℕ)
unfolding limit_of
limit_clause (Tok.limit ∷ Tok.word w ∷ ts) = limit_of w (parse_unsigned (2 ^ 64) w) ts
limit_clause (Tok.limit ∷ ts) = err (expected_number (peek ts))
limit_clause ts = ok (none, ts)

pub at_end : Query → List Tok → Result QueryError Query
at_end q [] = ok q
at_end q (t ∷ ts) = err (trailing_input t)

module _ (valid : List Text) where
  -- No predicate matches every row.
  pub predicate : List Tok → Parsed (Option Expr)
  unfolding parse_or parse_named expect_rparen enough_fuel
  predicate [] = ok (none, [])
  predicate (Tok.group ∷ ts) = ok (none, Tok.group ∷ ts)
  predicate (Tok.limit ∷ ts) = ok (none, Tok.limit ∷ ts)
  predicate ts = parse_or valid (enough_fuel ts) ts >>= some_first

  pub group_clause : List Tok → Parsed (Option (List Text))
  unfolding parse_identlist
  group_clause (Tok.group ∷ Tok.by ∷ ts) = parse_identlist valid ts >>= some_first
  group_clause (Tok.group ∷ ts) = err expected_by
  group_clause ts = ok (none, ts)

  unfoldable pub parse_query : List Tok → Result QueryError Query
  unfolding select_clause skip_where predicate group_clause limit_clause at_end
  parse_query ts = do
    (select, ts₁) ← select_clause ts
    (expr, ts₂) ← predicate (skip_where ts₁)
    (group_by, ts₃) ← group_clause ts₂
    (limit, ts₄) ← limit_clause ts₃
    at_end
        (record {
          select = select;
          expr = expr;
          group_by = group_by;
          limit = limit;
          after = none;
          before = none;
        })
        ts₄

  unfoldable pub parse : Text → Result QueryError Query
  unfolding lex parse_query
  parse dsl = do ts ← lex dsl; parse_query ts
