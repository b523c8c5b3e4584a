-- ===== src/Ruled/Suppress/Parser/RoundTrip.antt =====
-- Parsing the tokens of a printed condition gives the condition back.
use headless_siem.Prelude.{
  ℕ, zero, suc, ◌+◌, ◌-◌, ◌≤◌, ◌≡◌, refl, ◌∙◌, Text, ascii_upper, subst, List, [], ◌∷◌, arith,
}
use headless_siem.Prelude.Results.{ok}
use headless_siem.Ruled.Suppress.Condition.{
  Expr, Cmp, eq, ne, both, either, negate, compare, cidr_match,
}
use headless_siem.Ruled.Suppress.Lexer.{Tok, lparen, rparen}
use headless_siem.Ruled.Suppress.Lexer.{and, or, not}
use headless_siem.Ruled.Suppress.Parser.{
  parse_or, or_loop, parse_and, and_loop, parse_not, parse_primary, parse_word, expect_rparen,
  finish, parse_tokens, enough_fuel,
}
use headless_siem.Ruled.Suppress.Parser.Printing.{
  at_or, at_and, at_not, print_onto, print, IsPrintable, or_spine, and_spine, not_fuel, and_fuel,
  or_fuel, or_fuel_bound,
}

-- What a printed expression reads back as, at each level of the grammar.
abbrev NotOk : Expr → Type 0
NotOk e =
    (f : ℕ) (rest : List Tok)
    → not_fuel e ≤ f
    → parse_not f (print_onto at_not e rest) ≡ ok (e, rest)

abbrev AndOk : Expr → Type 0
AndOk e =
    (g f : ℕ) (rest : List Tok)
    → g ≡ and_spine e + f
    → and_fuel e ≤ f
    → parse_and (suc g) (print_onto at_and e rest) ≡ and_loop f e rest

-- The next token is no operator of the level.
abbrev NoAnd : List Tok → Type 0
NoAnd (Tok.and ∷ ts) = ⊥
NoAnd _ = Unit

abbrev NoOr : List Tok → Type 0
NoOr (Tok.or ∷ ts) = ⊥
NoOr _ = Unit

abbrev OrOk : Expr → Type 0
OrOk e =
    (g f : ℕ) (rest : List Tok)
    → NoAnd rest
    → g ≡ or_spine e + f
    → or_fuel e ≤ f
    → parse_or (suc g) (print_onto at_or e rest) ≡ or_loop f e rest

record Reads (e : Expr) : Type 0 where
  not_ok : NotOk e
  and_ok : AndOk e
  or_ok : OrOk e

and_loop_stop :
    (f : ℕ) (e : Expr) (rest : List Tok) → NoAnd rest → and_loop (suc f) e rest ≡ ok (e, rest)
unfolding and_loop
and_loop_stop f e (Tok.and ∷ ts) h = absurd h
and_loop_stop f e _ h = refl

or_loop_stop :
    (f : ℕ) (e : Expr) (rest : List Tok) → NoOr rest → or_loop (suc f) e rest ≡ ok (e, rest)
unfolding or_loop
or_loop_stop f e (Tok.or ∷ ts) h = absurd h
or_loop_stop f e _ h = refl

-- A complete conjunction, in front of anything but `AND`.
and_done :
    (e : Expr) (f : ℕ) (rest : List Tok)
    → AndOk e
    → NoAnd rest
    → and_fuel e + and_spine e + 2 ≤ f
    → parse_and f (print_onto at_and e rest) ≡ ok (e, rest)
and_done e f rest h stop le =
    subst (λ g. parse_and g (print_onto at_and e rest) ≡ ok (e, rest)) (omega arith)
      (h (and_spine e + suc (f - 2 - and_spine e)) (suc (f - 2 - and_spine e)) rest refl
          (omega arith)
        ∙ and_loop_stop (f - 2 - and_spine e) e rest stop)

or_done :
    (e : Expr) (f : ℕ) (rest : List Tok)
    → OrOk e
    → NoAnd rest
    → NoOr rest
    → or_fuel e + or_spine e + 2 ≤ f
    → parse_or f (print_onto at_or e rest) ≡ ok (e, rest)
or_done e f rest h no_and no_or le =
    subst (λ g. parse_or g (print_onto at_or e rest) ≡ ok (e, rest)) (omega arith)
      (h (or_spine e + suc (f - 2 - or_spine e)) (suc (f - 2 - or_spine e)) rest no_and refl
          (omega arith)
        ∙ or_loop_stop (f - 2 - or_spine e) e rest no_or)

-- From a level to the next looser one, where the expression has no operator of that level.
and_from_not :
    (e : Expr) (f : ℕ) (ts rest : List Tok)
    → parse_not f ts ≡ ok (e, rest)
    → parse_and (suc f) ts ≡ and_loop f e rest
unfolding parse_and
and_from_not e f ts rest h = rw h

or_from_and :
    (e : Expr) (f : ℕ) (ts rest : List Tok)
    → parse_and f ts ≡ ok (e, rest)
    → parse_or (suc f) ts ≡ or_loop f e rest
unfolding parse_or
or_from_and e f ts rest h = rw h

-- One more operand on the spine.
and_more :
    (a b : Expr) (f : ℕ) (ts rest : List Tok)
    → parse_not f ts ≡ ok (b, rest)
    → and_loop (suc f) a (and ∷ ts) ≡ and_loop f (both a b) rest
unfolding and_loop
and_more a b f ts rest h = rw h

or_more :
    (a b : Expr) (f : ℕ) (ts rest : List Tok)
    → parse_and f ts ≡ ok (b, rest)
    → or_loop (suc f) a (or ∷ ts) ≡ or_loop f (either a b) rest
unfolding or_loop
or_more a b f ts rest h = rw h

-- Parentheses.
not_from_or :
    (e : Expr) (f : ℕ) (ts rest : List Tok)
    → parse_or f ts ≡ ok (e, rparen ∷ rest)
    → parse_not (suc (suc f)) (lparen ∷ ts) ≡ ok (e, rest)
unfolding parse_not parse_primary expect_rparen
not_from_or e f ts rest h = rw h

not_from_not :
    (e : Expr) (f : ℕ) (ts rest : List Tok)
    → parse_not f ts ≡ ok (e, rest)
    → parse_not (suc f) (not ∷ ts) ≡ ok (negate e, rest)
unfolding parse_not
not_from_not e f ts rest h = rw h

OrOk-either : (a b : Expr) → Reads a → Reads b → OrOk (either a b)
unfolding print_onto not_fuel
OrOk-either a b ra rb g f rest stop e le =
    ra.or_ok g (suc f) (or ∷ print_onto at_and b rest) tt (omega arith) (omega arith)
    ∙ or_more a b f (print_onto at_and b rest) rest (and_done b f rest rb.and_ok stop (omega arith))

AndOk-both : (a b : Expr) → Reads a → Reads b → AndOk (both a b)
unfolding print_onto not_fuel
AndOk-both a b ra rb g f rest e le =
    ra.and_ok g (suc f) (and ∷ print_onto at_not b rest) (omega arith) (omega arith)
    ∙ and_more a b f (print_onto at_not b rest) rest (rb.not_ok f rest (omega arith))

-- The looser levels, for an expression that stands at the tightest one.
Reads-from_not :
    (e : Expr)
    → NotOk e
    → ((rest : List Tok) → print_onto at_and e rest ≡ print_onto at_not e rest)
    → ((rest : List Tok) → print_onto at_or e rest ≡ print_onto at_not e rest)
    → and_spine e ≡ 0
    → or_spine e ≡ 0
    → not_fuel e ≤ and_fuel e
    → and_fuel e + 2 ≤ or_fuel e
    → Reads e
Reads-from_not e h same_and same_or a0 o0 le le' = record {
  not_ok = h;
  and_ok = and_ok;
  or_ok = λ g f rest stop eq fit.
      let fe : g ≡ f = omega arith in
      rw fe (
        or_from_and e f (print_onto at_or e rest) rest
          (rw (same_or rest) (rw (← same_and rest) (and_done e f rest and_ok stop (omega arith)))));
}
  where
    and_ok : AndOk e
    and_ok g f rest sum fit =
        let fe : g ≡ f = omega arith in
        rw fe (
          rw (same_and rest)
            (and_from_not e f (print_onto at_not e rest) rest (h f rest (omega arith))))

compare-NotOk :
    (field value : Text) (cmp : Cmp)
    → IsPrintable (compare field value cmp)
    → NotOk (compare field value cmp)
unfolding print_onto not_fuel parse_not parse_primary parse_word
compare-NotOk field value eq p (suc (suc f)) rest le = rw p
compare-NotOk field value ne p (suc (suc f)) rest le = rw p
compare-NotOk field value cmp p zero rest le = absurd (omega arith)
compare-NotOk field value cmp p (suc zero) rest le = absurd (omega arith)

cidr-NotOk : (field cidr : Text) → NotOk (cidr_match field cidr)
unfolding print_onto not_fuel parse_not parse_primary parse_word ascii_upper
cidr-NotOk field cidr (suc (suc f)) rest le = refl
cidr-NotOk field cidr zero rest le = absurd (omega arith)
cidr-NotOk field cidr (suc zero) rest le = absurd (omega arith)

negate-NotOk : (e : Expr) → NotOk e → NotOk (negate e)
unfolding print_onto not_fuel
negate-NotOk e h zero rest le = absurd (omega arith)
negate-NotOk e h (suc f) rest le =
    not_from_not e f (print_onto at_not e rest) rest (h f rest (omega arith))

-- In parentheses.
either-NotOk : (a b : Expr) → OrOk (either a b) → NotOk (either a b)
unfolding print_onto not_fuel
either-NotOk a b h zero rest le = absurd (omega arith)
either-NotOk a b h (suc zero) rest le = absurd (omega arith)
either-NotOk a b h (suc (suc f)) rest le =
    not_from_or (either a b) f (print_onto at_or (either a b) (rparen ∷ rest)) rest
      (or_done (either a b) f (rparen ∷ rest) h tt tt (omega arith))

both-NotOk : (a b : Expr) → OrOk (both a b) → NotOk (both a b)
unfolding print_onto not_fuel
both-NotOk a b h zero rest le = absurd (omega arith)
both-NotOk a b h (suc zero) rest le = absurd (omega arith)
both-NotOk a b h (suc (suc f)) rest le =
    not_from_or (both a b) f (print_onto at_or (both a b) (rparen ∷ rest)) rest
      (or_done (both a b) f (rparen ∷ rest) h tt tt (omega arith))

both-OrOk : (a b : Expr) → AndOk (both a b) → OrOk (both a b)
unfolding print_onto not_fuel
both-OrOk a b h g f rest stop sum fit =
    let fe : g ≡ f = omega arith in
    rw fe (
      or_from_and (both a b) f (print_onto at_or (both a b) rest) rest
        (and_done (both a b) f rest h stop (omega arith)))

either-AndOk : (a b : Expr) → NotOk (either a b) → AndOk (either a b)
unfolding print_onto not_fuel
either-AndOk a b h g f rest sum fit =
    let fe : g ≡ f = omega arith in
    rw fe (
      and_from_not (either a b) f (print_onto at_and (either a b) rest) rest
        (h f rest (omega arith)))

reads : (e : Expr) → IsPrintable e → Reads e
unfolding print_onto not_fuel
reads (either a b) p =
    let o = OrOk-either a b (reads a p.0) (reads b p.1) in
    let n = either-NotOk a b o in record { not_ok = n; and_ok = either-AndOk a b n; or_ok = o }
reads (both a b) p =
    let c = AndOk-both a b (reads a p.0) (reads b p.1) in
    let o = both-OrOk a b c in record { not_ok = both-NotOk a b o; and_ok = c; or_ok = o }
reads (negate e) p =
    Reads-from_not (negate e) (negate-NotOk e (reads e p).not_ok) (λ rest. refl) (λ rest. refl) refl
      refl (omega arith) (omega arith)
reads (compare field value cmp) p =
    Reads-from_not (compare field value cmp) (compare-NotOk field value cmp p) (λ rest. refl)
      (λ rest. refl) refl refl (omega arith) (omega arith)
reads (cidr_match field cidr) p =
    Reads-from_not (cidr_match field cidr) (cidr-NotOk field cidr) (λ rest. refl) (λ rest. refl)
      refl refl (omega arith) (omega arith)

-- Every expression in which no compared field is spelled like the function `cidr_match`, in any
-- case, is read back from its tokens, printed with parentheses only where `NOT`, `AND` and `OR`
-- (in this order of binding, the last two to the left) need them. A `NOT` under a `NOT` is printed
-- without parentheses: `parse_not` reads any number of them, where the grammar above the code has one.
pub parse_tokens-print : (e : Expr) → IsPrintable e → parse_tokens (print e) ≡ ok e
unfolding parse_tokens finish print
parse_tokens-print e p =
    rw
      (or_done e (enough_fuel (print e)) [] (reads e p).or_ok tt tt
        (omega (arith, or_fuel_bound e)))
      refl
