-- ===== src/Siemctl/Query/Parser/Levels.antt =====
-- src/siemctl/src/query.rs, `parse_or` to `parse_primary`: with four calls for each token they end, and
-- every field of what they yield has been checked.
use headless_siem.Prelude.{ℕ, zero, suc, ◌+◌, ◌*◌, ◌<◌, length, List, ◌∷◌, arith}
use headless_siem.Prelude.{Text}
use headless_siem.Siemctl.Query.Syntax.{Tok, Expr, both, either}
use headless_siem.Siemctl.Query.Parser.{
  parse_named, expect_rparen, parse_or, or_loop, parse_and, and_loop, parse_not, parse_primary,
}
use headless_siem.Siemctl.Query.Parser.Atoms.{
  Good, Good-bind, Good-bind_value, Good-mono, expect_rparen-Good,
}
use headless_siem.Siemctl.Query.Parser.Conditions.{GoodExpr, parse_named-Good}

module _ (valid : List Text) where
  abbrev GoodFields : Expr → Type 0
  GoodFields = GoodExpr valid

  mutual
    unfolding parse_or or_loop parse_and and_loop parse_not parse_primary

    parse_or-Good :
        (f : ℕ) (ts : List Tok)
        → 4 * length ts + 3 < f
        → Good GoodFields (length ts) (parse_or valid f ts)
    parse_or-Good zero ts h = elim h [ ]
    parse_or-Good (suc f) ts h =
        Good-bind GoodFields GoodFields (length ts) (length ts) (parse_and valid f ts) _
          (parse_and-Good f ts (omega arith))
          λ left rest lt g.
            Good-mono GoodFields (suc (length rest)) (length ts) (or_loop valid f left rest) lt
              (or_loop-Good f left rest (omega arith) g)

    or_loop-Good :
        (f : ℕ) (left : Expr) (ts : List Tok)
        → 4 * length ts < f
        → GoodFields left
        → Good GoodFields (suc (length ts)) (or_loop valid f left ts)
    or_loop-Good zero left ts h g = elim h [ ]
    or_loop-Good (suc f) left (Tok.or ∷ ts) h g =
        Good-bind GoodFields GoodFields (length ts) (suc (suc (length ts))) (parse_and valid f ts) _
          (parse_and-Good f ts (omega arith))
          λ right rest lt r.
            Good-mono GoodFields (suc (length rest)) (suc (suc (length ts)))
              (or_loop valid f (either left right) rest) (omega arith)
              (or_loop-Good f (either left right) rest (omega arith) (g, r))
    or_loop-Good (suc f) left ts h g = (omega arith, g)

    parse_and-Good :
        (f : ℕ) (ts : List Tok)
        → 4 * length ts + 2 < f
        → Good GoodFields (length ts) (parse_and valid f ts)
    parse_and-Good zero ts h = elim h [ ]
    parse_and-Good (suc f) ts h =
        Good-bind GoodFields GoodFields (length ts) (length ts) (parse_not valid f ts) _
          (parse_not-Good f ts (omega arith))
          λ left rest lt g.
            Good-mono GoodFields (suc (length rest)) (length ts) (and_loop valid f left rest) lt
              (and_loop-Good f left rest (omega arith) g)

    and_loop-Good :
        (f : ℕ) (left : Expr) (ts : List Tok)
        → 4 * length ts < f
        → GoodFields left
        → Good GoodFields (suc (length ts)) (and_loop valid f left ts)
    and_loop-Good zero left ts h g = elim h [ ]
    and_loop-Good (suc f) left (Tok.and ∷ ts) h g =
        Good-bind GoodFields GoodFields (length ts) (suc (suc (length ts))) (parse_not valid f ts) _
          (parse_not-Good f ts (omega arith))
          λ right rest lt r.
            Good-mono GoodFields (suc (length rest)) (suc (suc (length ts)))
              (and_loop valid f (both left right) rest) (omega arith)
              (and_loop-Good f (both left right) rest (omega arith) (g, r))
    and_loop-Good (suc f) left ts h g = (omega arith, g)

    parse_not-Good :
        (f : ℕ) (ts : List Tok)
        → 4 * length ts + 1 < f
        → Good GoodFields (length ts) (parse_not valid f ts)
    parse_not-Good zero ts h = elim h [ ]
    parse_not-Good (suc f) (Tok.not ∷ ts) h =
        Good-bind GoodFields GoodFields (length ts) (suc (length ts)) (parse_not valid f ts) _
          (parse_not-Good f ts (omega arith)) λ e rest lt g. (omega arith, g)
    parse_not-Good (suc f) ts h = parse_primary-Good f ts (omega arith)

    parse_primary-Good :
        (f : ℕ) (ts : List Tok)
        → 4 * length ts < f
        → Good GoodFields (length ts) (parse_primary valid f ts)
    parse_primary-Good zero ts h = elim h [ ]
    parse_primary-Good (suc f) (Tok.lparen ∷ ts) h =
        Good-bind GoodFields GoodFields (length ts) (suc (length ts)) (parse_or valid f ts) _
          (parse_or-Good f ts (omega arith))
          λ e rest lt g.
            Good-bind_value (λ left. length left < length rest) GoodFields (suc (length ts))
              (expect_rparen rest) _ (expect_rparen-Good rest) λ left less. (omega arith, g)
    parse_primary-Good (suc f) (Tok.word w ∷ ts) h =
        Good-mono GoodFields (length ts) (suc (length ts)) (parse_named valid w ts) (omega arith)
          (parse_named-Good valid w ts)
    parse_primary-Good (suc f) (Tok.str w ∷ ts) h =
        Good-mono GoodFields (length ts) (suc (length ts)) (parse_named valid w ts) (omega arith)
          (parse_named-Good valid w ts)
    parse_primary-Good (suc f) ts h = λ e. cc

  pub enough-or_level :
      (f : ℕ) (ts : List Tok)
      → 4 * length ts + 3 < f
      → Good (GoodExpr valid) (length ts) (parse_or valid f ts)
  enough-or_level f ts h = parse_or-Good f ts h
