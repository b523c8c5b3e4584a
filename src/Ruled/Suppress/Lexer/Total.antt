-- ===== src/Ruled/Suppress/Lexer/Total.antt =====
-- The lexer's loop ends: each round takes at least one character.
use headless_siem.Prelude.{
  ℕ, zero, suc, ◌≤◌, ◌<◌, ◌≡◌, ◌≢◌, refl, Text, length, some, List, [], ◌∷◌, arith, inl, inr,
  Option-cases,
}
use headless_siem.Prelude.Results.{Result, ok, err, Result-cases}
use headless_siem.Ruled.Suppress.Lexer.{
  Tok, SyntaxError, out_of_fuel, Arm, arm_of, blank, open_paren, close_paren, comma_sign,
  quote_mark, equals, bang, word_start, other, until_quote, word_prefix, skip_equals, take_bang,
  is_word_char, lex_from, lex, push,
}

-- The tokens, or an error of the source's own.
abbrev pub Ends : Result SyntaxError (List Tok) → Type 0
Ends r = r ≢ err out_of_fuel

Ends-push : (t : Tok) (r : Result SyntaxError (List Tok)) → Ends r → Ends (push t r)
Ends-push t (ok ts) h = λ e. cc
Ends-push t (err x) h = h

length-until_quote : (q : ℕ) (s a b : Text) → until_quote q s ≡ some (a, b) → length b < length s
unfolding until_quote
length-until_quote q [] a b h = ground arith
length-until_quote q (c ∷ s) a b h = elim (Option-cases (until_quote q s)) [
  | inl n ↦ ground arith
  | inr ((a', b'), e) ↦ ground (arith, length-until_quote q s a' b' e)
]

length-word_prefix : (s : Text) → length (word_prefix s).1 ≤ length s
unfolding word_prefix
length-word_prefix [] = omega arith
length-word_prefix (c ∷ s) = ground (arith, length-word_prefix s)

length-word_prefix_start :
    (c : ℕ) (s : Text) → arm_of c ≡ word_start → length (word_prefix (c ∷ s)).1 ≤ length s
unfolding word_prefix arm_of is_word_char
length-word_prefix_start c s h = ground (arith, length-word_prefix s)

length-skip_equals : (s : Text) → length (skip_equals s) ≤ length s
unfolding skip_equals
length-skip_equals [] = omega arith
length-skip_equals (c ∷ s) = ground arith

take_bang_shorter : (s r : Text) → take_bang s ≡ ok r → length r ≤ length s
unfolding take_bang
take_bang_shorter [] r h = ground arith
take_bang_shorter (c ∷ s) r h = ground arith

take_bang_ends : (s : Text) → take_bang s ≢ err out_of_fuel
unfolding take_bang
take_bang_ends [] h = ground arith
take_bang_ends (c ∷ s) h = ground arith

-- One round of the loop, given that the rest of the run ends.
lex_round-Ends :
    (f c : ℕ) (s : Text) (a : Arm)
    → ((t : Text) → length t ≤ length s → Ends (lex_from f t))
    → arm_of c ≡ a
    → Ends (lex_from (suc f) (c ∷ s))
unfolding lex_from
lex_round-Ends f c s blank ih e = rw (e, lex_from) (ih s (omega arith))
lex_round-Ends f c s open_paren ih e = rw (e, lex_from) (Ends-push _ _ (ih s (omega arith)))
lex_round-Ends f c s close_paren ih e = rw (e, lex_from) (Ends-push _ _ (ih s (omega arith)))
lex_round-Ends f c s comma_sign ih e = rw (e, lex_from) (Ends-push _ _ (ih s (omega arith)))
lex_round-Ends f c s quote_mark ih e = elim (Option-cases (until_quote c s)) [
  | inl n ↦ rw (e, n, lex_from) (λ h. cc)
  | inr ((text, rest), q) ↦
      rw (e, q, lex_from)
        (Ends-push _ _ (ih rest (omega (arith, length-until_quote c s text rest q))))
]
lex_round-Ends f c s equals ih e =
    rw (e, lex_from) (Ends-push _ _ (ih (skip_equals s) (length-skip_equals s)))
lex_round-Ends f c s bang ih e = elim (Result-cases (take_bang s)) [
  | inl (rest, b) ↦ rw (e, b, lex_from) (Ends-push _ _ (ih rest (take_bang_shorter s rest b)))
  | inr (x, b) ↦ rw (e, b, lex_from) (λ h. take_bang_ends s (ground arith))
]
lex_round-Ends f c s word_start ih e =
    rw (e, lex_from) (Ends-push _ _ (ih (word_prefix (c ∷ s)).1 (length-word_prefix_start c s e)))
lex_round-Ends f c s other ih e = rw (e, lex_from) (λ h. cc)

lex_from-Ends : (f : ℕ) (s : Text) → length s < f → Ends (lex_from f s)
lex_from-Ends zero s h = elim h [ ]
lex_from-Ends (suc f) [] h = unfold lex_from in λ e. cc
lex_from-Ends (suc f) (c ∷ s) h =
    lex_round-Ends f c s (arm_of c) (λ t le. lex_from-Ends f t (omega arith)) refl

-- With one unit of fuel more than characters, `lex` never runs out of fuel.
pub lex-Ends : (s : Text) → Ends (lex s)
unfolding lex
lex-Ends s = lex_from-Ends (suc (length s)) s (omega arith)
