-- ===== src/Prelude/Numerals.antt =====
-- Printed numbers: what `parse` reads back, and which characters they hold.
use Prim.Native.Nat.{ℕ, zero, suc, ◌+◌, ◌-◌, ◌*◌, ◌/◌, ◌%◌, ◌<◌}
use mathlib.Core.Path.{◌≡◌, refl, sym, ap, ◌∙◌}
use mathlib.Core.Bool.{true≢false, Bool, true, false, ◌&&◌}
use mathlib.Core.List.{[], ◌∷◌, ◌++◌}
use mathlib.Core.Option.{Option, none, some}
use mathlib.Core.Logic.{◌≢◌, inl, inr}
use native.Mathlib.Omega.{arith}
use headless_siem.Prelude.Tests.{ltb, Bool-cases, ltb→lt, and_left, and_right}
use headless_siem.Prelude.Equality.{◌==◌, ==_of_ne, nat_eq}
use headless_siem.Prelude.Lists.{all, length, length-append}
use headless_siem.Prelude.Texts.{
  Text, is_ascii_digit, digits_below, parse_unsigned, split, split_once,
}
use headless_siem.Prelude.Decimals.{decimal, decimal_from}

abbrev and_then_digit : ℕ → ℕ → Option ℕ → Option ℕ
and_then_digit bound c none = none
and_then_digit bound c (some m) = digits_below bound m (c ∷ [])

digits_below-append :
    (bound n c : ℕ) (s : Text)
    → digits_below bound n (s ++ c ∷ []) ≡ and_then_digit bound c (digits_below bound n s)
unfolding digits_below
digits_below-append bound n c [] = refl
digits_below-append bound n c (d ∷ s) =
    ground (arith, digits_below-append bound (n * 10 + (d - b'0')) c s)

digits_below-last :
    (bound m r : ℕ)
    → r < 10
    → m * 10 + r < bound
    → digits_below bound m ((b'0' + r) ∷ []) ≡ some (m * 10 + r)
unfolding digits_below is_ascii_digit
digits_below-last bound m r lt fits = ground arith

digits_below-decimal_from :
    (bound fuel n : ℕ) → n < fuel → n < bound → digits_below bound 0 (decimal_from fuel n) ≡ some n
unfolding decimal_from
digits_below-decimal_from bound zero n lt fits = absurd (omega arith)
digits_below-decimal_from bound (suc fuel) n lt fits = elim (Bool-cases (ltb n 10)) [
  | inl h ↦ rw h (digits_below-last bound 0 n (ltb→lt n 10 h) (omega arith) ∙ ap some (omega arith))
  | inr h ↦
      rw h rw (digits_below-append bound 0 (b'0' + n % 10) (decimal_from fuel (n / 10))) rw
        (digits_below-decimal_from bound fuel (n / 10) (ground arith) (omega arith))
        (digits_below-last bound (n / 10) (n % 10) (omega arith) (omega arith)
          ∙ ap some (omega arith))
]

pub all-append : (p : ℕ → Bool) (s t : Text) → all p (s ++ t) ≡ (all p s && all p t)
all-append p [] t = refl
all-append p (c ∷ s) t = ground (arith, all-append p s t)

digit-last : (r : ℕ) → r < 10 → all is_ascii_digit ((b'0' + r) ∷ []) ≡ true
unfolding is_ascii_digit
digit-last r lt = ground arith

decimal_from-digits : (fuel n : ℕ) → n < fuel → all is_ascii_digit (decimal_from fuel n) ≡ true
unfolding decimal_from
decimal_from-digits zero n lt = absurd (omega arith)
decimal_from-digits (suc fuel) n lt = elim (Bool-cases (ltb n 10)) [
  | inl h ↦ rw h (digit-last n (ltb→lt n 10 h))
  | inr h ↦
      rw h rw (all-append is_ascii_digit (decimal_from fuel (n / 10)) ((b'0' + n % 10) ∷ [])) rw
        (decimal_from-digits fuel (n / 10) (ground arith)) (digit-last (n % 10) (omega arith))
]

pub decimal-digits : (n : ℕ) → all is_ascii_digit (decimal n) ≡ true
unfolding decimal
decimal-digits n = decimal_from-digits (suc n) n (omega arith)

-- A text of digits is parsed to the number that its digits make.
parse_unsigned-digits :
    (bound c : ℕ) (s : Text)
    → is_ascii_digit c ≡ true
    → parse_unsigned bound (c ∷ s) ≡ digits_below bound 0 (c ∷ s)
unfolding parse_unsigned is_ascii_digit
parse_unsigned-digits bound c s h = ground arith

pub parse_unsigned-of :
    (bound n : ℕ) (s : Text)
    → all is_ascii_digit s ≡ true
    → s ≢ []
    → digits_below bound 0 s ≡ some n
    → parse_unsigned bound s ≡ some n
parse_unsigned-of bound n [] d ne h = absurd (ne refl)
parse_unsigned-of bound n (c ∷ s) d ne h =
    parse_unsigned-digits bound c s (and_left (is_ascii_digit c) (all is_ascii_digit s) d) ∙ h

pub decimal-length : (n : ℕ) → 0 < length (decimal n)
unfolding decimal decimal_from
decimal-length n = ground (arith, length-append (decimal_from n (n / 10)) ((b'0' + n % 10) ∷ []))

pub decimal-nonempty : (n : ℕ) → decimal n ≢ []
decimal-nonempty n h = absurd (omega (arith, decimal-length n, ap length h))

pub digits_below-decimal : (bound n : ℕ) → n < bound → digits_below bound 0 (decimal n) ≡ some n
unfolding decimal
digits_below-decimal bound n lt = digits_below-decimal_from bound (suc n) n (omega arith) lt

-- The text of a number below the bound is parsed back to it.
pub parse_unsigned-decimal : (bound n : ℕ) → n < bound → parse_unsigned bound (decimal n) ≡ some n
parse_unsigned-decimal bound n lt =
    parse_unsigned-of bound n (decimal n) (decimal-digits n) (decimal-nonempty n)
      (digits_below-decimal bound n lt)

-- Texts of characters with the property `p`, at a separator without it.
module _ (p : ℕ → Bool) (d : ℕ) (no_p : p d ≡ false) where
  other : (c : ℕ) → p c ≡ true → (c == d) ≡ false
  other c h = ==_of_ne c d (λ e. true≢false (sym h ∙ ap p e ∙ no_p))

  pub split-first : (s rest : Text) → all p s ≡ true → split d (s ++ d ∷ rest) ≡ s ∷ split d rest
  unfolding split
  split-first [] rest h = ground arith
  split-first (c ∷ s) rest h =
      rw (other c (and_left (p c) (all p s) h)) rw
        (split-first s rest (and_right (p c) (all p s) h)) refl

  pub split-only : (s : Text) → all p s ≡ true → split d s ≡ s ∷ []
  unfolding split
  split-only [] h = refl
  split-only (c ∷ s) h =
      rw (other c (and_left (p c) (all p s) h)) rw (split-only s (and_right (p c) (all p s) h)) refl

  pub split_once-first :
      (s rest : Text) → all p s ≡ true → split_once d (s ++ d ∷ rest) ≡ some (s, rest)
  unfolding split_once
  split_once-first [] rest h = ground arith
  split_once-first (c ∷ s) rest h =
      rw (other c (and_left (p c) (all p s) h)) rw
        (split_once-first s rest (and_right (p c) (all p s) h)) refl
