-- ===== src/Ruled/Suppress/Parser.antt =====
-- src/ruled/src/suppress.rs, `Parser` and `parse_condition`: recursive descent over the tokens.
-- A parser's state, `toks` from `pos` on, is the list of the tokens that are left.
pub mod Total
pub mod Printing
pub mod RoundTrip
use headless_siem.Prelude.{
  ℕ, zero, suc, ◌+◌, ◌*◌, Text, codes, eq_ignore_ascii_case, Bool, true, false, Option, none, some,
  List, [], ◌∷◌, length, if◌then◌else◌,
}
use headless_siem.Prelude.Results.{Result, ok, err, ◌>>=◌}
use headless_siem.Ruled.Suppress.Condition.{Expr, Cmp, both, either, negate, compare, cidr_match}
use headless_siem.Ruled.Suppress.Lexer.{
  Tok, SyntaxError, lparen, rparen, comma, word, str, expected, expected_field, expected_value,
  expected_cmp, unexpected_token, trailing_input, out_of_fuel, lex,
}

abbrev pub Parsed : Type 0 → Type 0
Parsed A = Result SyntaxError (A × List Tok)

abbrev pub peek : List Tok → Option Tok
peek [] = none
peek (t ∷ ts) = some t

-- `expect`, at the three tokens that the grammar expects.
pub expect_lparen : List Tok → Result SyntaxError (List Tok)
expect_lparen (Tok.lparen ∷ ts) = ok ts
expect_lparen ts = err (expected lparen (peek ts))

pub expect_rparen : List Tok → Result SyntaxError (List Tok)
expect_rparen (Tok.rparen ∷ ts) = ok ts
expect_rparen ts = err (expected rparen (peek ts))

pub expect_comma : List Tok → Result SyntaxError (List Tok)
expect_comma (Tok.comma ∷ ts) = ok ts
expect_comma ts = err (expected comma (peek ts))

pub expect_field : List Tok → Parsed Text
expect_field (Tok.word w ∷ ts) = ok (w, ts)
expect_field ts = err (expected_field (peek ts))

pub expect_literal : List Tok → Parsed Text
expect_literal (Tok.word w ∷ ts) = ok (w, ts)
expect_literal (Tok.str s ∷ ts) = ok (s, ts)
expect_literal ts = err (expected_value (peek ts))

pub expect_cmp : Text → List Tok → Parsed Cmp
expect_cmp field (Tok.eq ∷ ts) = ok (Cmp.eq, ts)
expect_cmp field (Tok.ne ∷ ts) = ok (Cmp.ne, ts)
expect_cmp field ts = err (expected_cmp field (peek ts))

-- `cidr_match ( field , literal )`, behind the word.
pub parse_cidr : List Tok → Parsed Expr
unfolding expect_lparen expect_field expect_comma expect_literal expect_rparen
parse_cidr ts = do
  ts₁ ← expect_lparen ts
  (field, ts₂) ← expect_field ts₁
  ts₃ ← expect_comma ts₂
  (cidr, ts₄) ← expect_literal ts₃
  ts₅ ← expect_rparen ts₄
  ok (cidr_match field cidr, ts₅)

-- `field == literal`, the field being the word at the head.
pub parse_compare : Text → List Tok → Parsed Expr
unfolding expect_cmp expect_literal
parse_compare field ts = do
  (cmp, ts₁) ← expect_cmp field ts
  (value, ts₂) ← expect_literal ts₁
  ok (compare field value cmp, ts₂)

pub parse_word : Text → List Tok → Parsed Expr
unfolding parse_cidr parse_compare
parse_word w ts =
    if eq_ignore_ascii_case w (codes "cidr_match") then parse_cidr ts else parse_compare w ts

mutual
  pub parse_or : ℕ → List Tok → Parsed Expr
  parse_or zero ts = err out_of_fuel
  parse_or (suc f) ts = do (left, rest) ← parse_and f ts; or_loop f left rest

  -- `while matches!(self.peek(), Some(Tok::Or))`
  pub or_loop : ℕ → Expr → List Tok → Parsed Expr
  or_loop zero left ts = err out_of_fuel
  or_loop (suc f) left (Tok.or ∷ ts) = do
    (right, rest) ← parse_and f ts
    or_loop f (either left right) rest
  or_loop (suc f) left ts = ok (left, ts)

  pub parse_and : ℕ → List Tok → Parsed Expr
  parse_and zero ts = err out_of_fuel
  parse_and (suc f) ts = do (left, rest) ← parse_not f ts; and_loop f left rest

  pub and_loop : ℕ → Expr → List Tok → Parsed Expr
  and_loop zero left ts = err out_of_fuel
  and_loop (suc f) left (Tok.and ∷ ts) = do
    (right, rest) ← parse_not f ts
    and_loop f (both left right) rest
  and_loop (suc f) left ts = ok (left, ts)

  pub parse_not : ℕ → List Tok → Parsed Expr
  parse_not zero ts = err out_of_fuel
  parse_not (suc f) (Tok.not ∷ ts) = do (e, rest) ← parse_not f ts; ok (negate e, rest)
  parse_not (suc f) ts = parse_primary f ts

  pub parse_primary : ℕ → List Tok → Parsed Expr
  parse_primary zero ts = err out_of_fuel
  parse_primary (suc f) (Tok.lparen ∷ ts) = do
    (e, rest) ← parse_or f ts
    rest' ← expect_rparen rest
    ok (e, rest')
  parse_primary (suc f) (Tok.word w ∷ ts) = parse_word w ts
  parse_primary (suc f) ts = err (unexpected_token (peek ts))

-- Four calls for each token, and four more.
abbrev pub enough_fuel : List Tok → ℕ
enough_fuel ts = 4 * length ts + 4

pub finish : Expr × List Tok → Result SyntaxError Expr
finish (e, []) = ok e
finish (e, t ∷ ts) = err (trailing_input t)

pub parse_tokens : List Tok → Result SyntaxError Expr
unfolding parse_or parse_word finish
parse_tokens ts = do r ← parse_or (enough_fuel ts) ts; finish r

unfoldable pub parse_condition : Text → Result SyntaxError Expr
unfolding lex parse_tokens
parse_condition s = do ts ← lex s; parse_tokens ts
