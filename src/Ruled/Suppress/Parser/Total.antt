-- ===== src/Ruled/Suppress/Parser/Total.antt =====
-- The parser ends: four calls for each token, and four more, are enough.
use headless_siem.Prelude.{
  ℕ, zero, suc, ◌+◌, ◌*◌, ◌≤◌, ◌<◌, ◌≢◌, Text, codes, eq_ignore_ascii_case, length, List, [], ◌∷◌,
  arith, Bool-cases, inl, inr,
}
use headless_siem.Prelude.Results.{Result, ok, err, ◌>>=◌, Result-cases}
use headless_siem.Ruled.Suppress.Condition.{Expr, either, both}
use headless_siem.Ruled.Suppress.Lexer.{Tok, SyntaxError, out_of_fuel, lex}
use headless_siem.Ruled.Suppress.Lexer.Total.{lex-Ends}
use headless_siem.Ruled.Suppress.Parser.{
  Parsed, expect_lparen, expect_rparen, expect_comma, expect_field, expect_literal, expect_cmp,
  parse_cidr, parse_compare, parse_word, parse_or, or_loop, parse_and, and_loop, parse_not,
  parse_primary, finish, parse_tokens, parse_condition, enough_fuel,
}

-- A result that leaves fewer than `n` tokens, or an error of the source's own.
abbrev pub Within : {A : Type 0} → ℕ → Parsed A → Type 0
Within n (ok (a, rest)) = length rest < n
Within n (err x) = x ≢ out_of_fuel

abbrev pub WithinTokens : ℕ → Result SyntaxError (List Tok) → Type 0
WithinTokens n (ok rest) = length rest < n
WithinTokens n (err x) = x ≢ out_of_fuel

module _ {A B : Type 0} where
  Within-bind :
      (m n : ℕ) (r : Parsed A) (k : A × List Tok → Parsed B)
      → Within m r
      → ((a : A) (rest : List Tok) → length rest < m → Within n (k (a, rest)))
      → Within n (r >>= k)
  Within-bind m n (ok (a, rest)) k h f = f a rest h
  Within-bind m n (err x) k h f = h

module _ {B : Type 0} where
  Within-bind_tokens :
      (m n : ℕ) (r : Result SyntaxError (List Tok)) (k : List Tok → Parsed B)
      → WithinTokens m r
      → ((rest : List Tok) → length rest < m → Within n (k rest))
      → Within n (r >>= k)
  Within-bind_tokens m n (ok rest) k h f = f rest h
  Within-bind_tokens m n (err x) k h f = h

module _ {A : Type 0} where
  Within-mono : (m n : ℕ) (r : Parsed A) → m ≤ n → Within m r → Within n r
  Within-mono m n (ok (a, rest)) le h = omega arith
  Within-mono m n (err x) le h = h

expect_lparen_ends : (ts : List Tok) → WithinTokens (length ts) (expect_lparen ts)
unfolding expect_lparen
expect_lparen_ends (Tok.lparen ∷ ts) = omega arith
expect_lparen_ends _ = λ e. cc

expect_rparen_ends : (ts : List Tok) → WithinTokens (length ts) (expect_rparen ts)
unfolding expect_rparen
expect_rparen_ends (Tok.rparen ∷ ts) = omega arith
expect_rparen_ends _ = λ e. cc

expect_comma_ends : (ts : List Tok) → WithinTokens (length ts) (expect_comma ts)
unfolding expect_comma
expect_comma_ends (Tok.comma ∷ ts) = omega arith
expect_comma_ends _ = λ e. cc

expect_field_ends : (ts : List Tok) → Within (length ts) (expect_field ts)
unfolding expect_field
expect_field_ends (Tok.word w ∷ ts) = omega arith
expect_field_ends _ = λ e. cc

expect_literal_ends : (ts : List Tok) → Within (length ts) (expect_literal ts)
unfolding expect_literal
expect_literal_ends (Tok.word w ∷ ts) = omega arith
expect_literal_ends (Tok.str w ∷ ts) = omega arith
expect_literal_ends _ = λ e. cc

expect_cmp_ends : (field : Text) (ts : List Tok) → Within (length ts) (expect_cmp field ts)
unfolding expect_cmp
expect_cmp_ends field (Tok.eq ∷ ts) = omega arith
expect_cmp_ends field (Tok.ne ∷ ts) = omega arith
expect_cmp_ends field _ = λ e. cc

parse_cidr_ends : (ts : List Tok) → Within (length ts) (parse_cidr ts)
unfolding parse_cidr
parse_cidr_ends ts =
    Within-bind_tokens (length ts) (length ts) (expect_lparen ts) _ (expect_lparen_ends ts)
      λ ts₁ h₁.
        Within-bind (length ts₁) (length ts) (expect_field ts₁) _ (expect_field_ends ts₁)
          λ field ts₂ h₂.
            Within-bind_tokens (length ts₂) (length ts) (expect_comma ts₂) _ (expect_comma_ends ts₂)
              λ ts₃ h₃.
                Within-bind (length ts₃) (length ts) (expect_literal ts₃) _
                  (expect_literal_ends ts₃)
                  λ cidr ts₄ h₄.
                    Within-bind_tokens (length ts₄) (length ts) (expect_rparen ts₄) _
                      (expect_rparen_ends ts₄) λ ts₅ h₅. omega arith

parse_compare_ends : (field : Text) (ts : List Tok) → Within (length ts) (parse_compare field ts)
unfolding parse_compare
parse_compare_ends field ts =
    Within-bind (length ts) (length ts) (expect_cmp field ts) _ (expect_cmp_ends field ts)
      λ cmp ts₁ h₁.
        Within-bind (length ts₁) (length ts) (expect_literal ts₁) _ (expect_literal_ends ts₁)
          λ value ts₂ h₂. omega arith

parse_word_ends : (w : Text) (ts : List Tok) → Within (length ts) (parse_word w ts)
unfolding parse_word
parse_word_ends w ts = elim (Bool-cases (eq_ignore_ascii_case w (codes "cidr_match"))) [
  | inl e ↦ rw e (parse_cidr_ends ts)
  | inr e ↦ rw e (parse_compare_ends w ts)
]

mutual
  unfolding parse_or or_loop parse_and and_loop parse_not parse_primary

  parse_or_ends :
      (f : ℕ) (ts : List Tok) → 4 * length ts + 3 < f → Within (length ts) (parse_or f ts)
  parse_or_ends zero ts h = elim h [ ]
  parse_or_ends (suc f) ts h =
      Within-bind (length ts) (length ts) (parse_and f ts) _ (parse_and_ends f ts (omega arith))
        λ left rest lt.
          Within-mono (suc (length rest)) (length ts) (or_loop f left rest) lt
            (or_loop_ends f left rest (omega arith))

  or_loop_ends :
      (f : ℕ) (left : Expr) (ts : List Tok)
      → 4 * length ts < f
      → Within (suc (length ts)) (or_loop f left ts)
  or_loop_ends zero left ts h = elim h [ ]
  or_loop_ends (suc f) left (Tok.or ∷ ts) h =
      Within-bind (length ts) (suc (suc (length ts))) (parse_and f ts) _
        (parse_and_ends f ts (omega arith))
        λ right rest lt.
          Within-mono (suc (length rest)) (suc (suc (length ts)))
            (or_loop f (either left right) rest) (omega arith)
            (or_loop_ends f (either left right) rest (omega arith))
  or_loop_ends (suc f) left ts h = omega arith

  parse_and_ends :
      (f : ℕ) (ts : List Tok) → 4 * length ts + 2 < f → Within (length ts) (parse_and f ts)
  parse_and_ends zero ts h = elim h [ ]
  parse_and_ends (suc f) ts h =
      Within-bind (length ts) (length ts) (parse_not f ts) _ (parse_not_ends f ts (omega arith))
        λ left rest lt.
          Within-mono (suc (length rest)) (length ts) (and_loop f left rest) lt
            (and_loop_ends f left rest (omega arith))

  and_loop_ends :
      (f : ℕ) (left : Expr) (ts : List Tok)
      → 4 * length ts < f
      → Within (suc (length ts)) (and_loop f left ts)
  and_loop_ends zero left ts h = elim h [ ]
  and_loop_ends (suc f) left (Tok.and ∷ ts) h =
      Within-bind (length ts) (suc (suc (length ts))) (parse_not f ts) _
        (parse_not_ends f ts (omega arith))
        λ right rest lt.
          Within-mono (suc (length rest)) (suc (suc (length ts)))
            (and_loop f (both left right) rest) (omega arith)
            (and_loop_ends f (both left right) rest (omega arith))
  and_loop_ends (suc f) left ts h = omega arith

  parse_not_ends :
      (f : ℕ) (ts : List Tok) → 4 * length ts + 1 < f → Within (length ts) (parse_not f ts)
  parse_not_ends zero ts h = elim h [ ]
  parse_not_ends (suc f) (Tok.not ∷ ts) h =
      Within-bind (length ts) (suc (length ts)) (parse_not f ts) _
        (parse_not_ends f ts (omega arith)) λ e rest lt. omega arith
  parse_not_ends (suc f) ts h = parse_primary_ends f ts (omega arith)

  parse_primary_ends :
      (f : ℕ) (ts : List Tok) → 4 * length ts < f → Within (length ts) (parse_primary f ts)
  parse_primary_ends zero ts h = elim h [ ]
  parse_primary_ends (suc f) (Tok.lparen ∷ ts) h =
      Within-bind (length ts) (suc (length ts)) (parse_or f ts) _ (parse_or_ends f ts (omega arith))
        λ e rest lt.
          Within-bind_tokens (length rest) (suc (length ts)) (expect_rparen rest) _
            (expect_rparen_ends rest) λ rest' lt'. omega arith
  parse_primary_ends (suc f) (Tok.word w ∷ ts) h =
      Within-mono (length ts) (suc (length ts)) (parse_word w ts) (omega arith)
        (parse_word_ends w ts)
  parse_primary_ends (suc f) ts h = λ e. cc

finish_ends : (r : Expr × List Tok) → finish r ≢ err out_of_fuel
unfolding finish
finish_ends (e, []) h = cc
finish_ends (e, t ∷ ts) h = cc

parse_tokens_ends : (ts : List Tok) → parse_tokens ts ≢ err out_of_fuel
unfolding parse_tokens
parse_tokens_ends ts =
    go (parse_or (enough_fuel ts) ts) (parse_or_ends (enough_fuel ts) ts (omega arith))
  where
    go : (r : Parsed Expr) → Within (length ts) r → (r >>= finish) ≢ err out_of_fuel
    go (ok r) h = finish_ends r
    go (err x) h = λ e. h (ground arith)

-- On any text, the lexer and the parser run to their end: `parse_condition` gives an expression or
-- one of the source's own errors, and the fuel that the model gives them never runs out.
pub parse_condition_ends : (s : Text) → parse_condition s ≢ err out_of_fuel
unfolding parse_condition
parse_condition_ends s = elim (Result-cases (lex s)) [
  | inl (ts, e) ↦ rw e (parse_tokens_ends ts)
  | inr (x, e) ↦ rw e (λ h. lex-Ends s (ground arith))
]
