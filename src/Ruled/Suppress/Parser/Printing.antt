-- ===== src/Ruled/Suppress/Parser/Printing.antt =====
-- Suppression conditions as tokens, with as few parentheses as the grammar allows, and the fuel
-- that parsing them takes.
use headless_siem.Prelude.{
  ℕ, suc, ◌+◌, ◌*◌, ◌≤◌, ◌≡◌, codes, eq_ignore_ascii_case, false, length, List, [], ◌∷◌, arith,
}
use headless_siem.Ruled.Suppress.Condition.{
  Expr, Cmp, eq, ne, both, either, negate, compare, cidr_match,
}
use headless_siem.Ruled.Suppress.Lexer.{Tok, lparen, rparen, comma, and, or, not, word, str}

-- The level of the grammar at which an expression stands.
pub data Level : Type 0 where
  at_or at_and at_not : Level

abbrev pub cmp_token : Cmp → Tok
cmp_token eq = Tok.eq
cmp_token ne = Tok.ne

-- The tokens of an expression in front of `rest`.
unfoldable pub print_onto : Level → Expr → List Tok → List Tok
print_onto at_or (either a b) rest = print_onto at_or a (or ∷ print_onto at_and b rest)
print_onto at_and (either a b) rest =
    lparen ∷ print_onto at_or a (or ∷ print_onto at_and b (rparen ∷ rest))
print_onto at_not (either a b) rest =
    lparen ∷ print_onto at_or a (or ∷ print_onto at_and b (rparen ∷ rest))
print_onto at_or (both a b) rest = print_onto at_and a (and ∷ print_onto at_not b rest)
print_onto at_and (both a b) rest = print_onto at_and a (and ∷ print_onto at_not b rest)
print_onto at_not (both a b) rest =
    lparen ∷ print_onto at_and a (and ∷ print_onto at_not b (rparen ∷ rest))
print_onto level (negate e) rest = not ∷ print_onto at_not e rest
print_onto level (compare field value cmp) rest = word field ∷ cmp_token cmp ∷ str value ∷ rest
print_onto level (cidr_match field cidr) rest =
    word (codes "cidr_match") ∷ lparen ∷ word field ∷ comma ∷ str cidr ∷ rparen ∷ rest

unfoldable pub print : Expr → List Tok
unfolding print_onto
print e = print_onto at_or e []

-- A field that is spelled like the function is read as a call of it.
abbrev pub IsPrintable : Expr → Type 0
IsPrintable (both a b) = IsPrintable a × IsPrintable b
IsPrintable (either a b) = IsPrintable a × IsPrintable b
IsPrintable (negate e) = IsPrintable e
IsPrintable (compare field value cmp) = eq_ignore_ascii_case field (codes "cidr_match") ≡ false
IsPrintable (cidr_match field cidr) = Unit

-- The operators on the left spine, each of which takes one round of its loop.
abbrev pub or_spine : Expr → ℕ
or_spine (either a b) = suc (or_spine a)
or_spine _ = 0

abbrev pub and_spine : Expr → ℕ
and_spine (both a b) = suc (and_spine a)
and_spine _ = 0

unfoldable mutual
  -- The fuel of `parse_not`.
  pub not_fuel : Expr → ℕ
  not_fuel (either a b) = 7 + or_spine a + or_fuel a + and_spine b + and_fuel b
  not_fuel (both a b) = 7 + and_spine a + and_fuel a + not_fuel b
  not_fuel (negate e) = 1 + not_fuel e
  not_fuel _ = 2

  -- What is left for the loop behind the spine.
  pub and_fuel : Expr → ℕ
  and_fuel (either a b) = 7 + or_spine a + or_fuel a + and_spine b + and_fuel b
  and_fuel (both a b) = and_fuel a + not_fuel b
  and_fuel (negate e) = 1 + not_fuel e
  and_fuel _ = 2

  pub or_fuel : Expr → ℕ
  or_fuel (either a b) = or_fuel a + and_spine b + and_fuel b + 2
  or_fuel (both a b) = 3 + and_spine a + and_fuel a + not_fuel b
  or_fuel (negate e) = 3 + not_fuel e
  or_fuel _ = 4

mutual
  unfolding print_onto not_fuel

  not_fuel-length :
      (e : Expr) (rest : List Tok)
      → not_fuel e + 4 * length rest + 4 ≤ 4 * length (print_onto at_not e rest)
  not_fuel-length (either a b) rest = omega (
    arith,
    or_fuel-length a (or ∷ print_onto at_and b (rparen ∷ rest)),
    and_fuel-length b (rparen ∷ rest),
  )
  not_fuel-length (both a b) rest = omega (
    arith,
    and_fuel-length a (and ∷ print_onto at_not b (rparen ∷ rest)),
    not_fuel-length b (rparen ∷ rest),
  )
  not_fuel-length (negate e) rest = omega (arith, not_fuel-length e rest)
  not_fuel-length (compare field value cmp) rest = omega arith
  not_fuel-length (cidr_match field cidr) rest = omega arith

  and_fuel-length :
      (e : Expr) (rest : List Tok)
      → and_fuel e + and_spine e + 4 * length rest + 4 ≤ 4 * length (print_onto at_and e rest)
  and_fuel-length (either a b) rest = omega (
    arith,
    or_fuel-length a (or ∷ print_onto at_and b (rparen ∷ rest)),
    and_fuel-length b (rparen ∷ rest),
  )
  and_fuel-length (both a b) rest =
      omega (arith, and_fuel-length a (and ∷ print_onto at_not b rest), not_fuel-length b rest)
  and_fuel-length (negate e) rest = omega (arith, not_fuel-length e rest)
  and_fuel-length (compare field value cmp) rest = omega arith
  and_fuel-length (cidr_match field cidr) rest = omega arith

  or_fuel-length :
      (e : Expr) (rest : List Tok)
      → or_fuel e + or_spine e + 4 * length rest + 3 ≤ 4 * length (print_onto at_or e rest)
  or_fuel-length (either a b) rest =
      omega (arith, or_fuel-length a (or ∷ print_onto at_and b rest), and_fuel-length b rest)
  or_fuel-length (both a b) rest =
      omega (arith, and_fuel-length a (and ∷ print_onto at_not b rest), not_fuel-length b rest)
  or_fuel-length (negate e) rest = omega (arith, not_fuel-length e rest)
  or_fuel-length (compare field value cmp) rest = omega arith
  or_fuel-length (cidr_match field cidr) rest = omega arith

pub or_fuel_bound : (e : Expr) → or_fuel e + or_spine e + 3 ≤ 4 * length (print e)
unfolding print
or_fuel_bound e = omega (arith, or_fuel-length e [])
