-- ===== src/Prelude/Padding.antt =====
-- Zero-padded numbers: their digits, their order as texts, and what `parse` reads back.
use Prim.Native.Nat.{ℕ, zero, suc, ◌+◌, ◌-◌, ◌/◌, ◌%◌, ◌^◌, ◌<◌}
use mathlib.Core.Path.{◌≡◌, refl, sym, ap, ap₂, ◌∙◌}
use mathlib.Core.Bool.{true, false}
use mathlib.Core.List.{[], ◌∷◌, ◌++◌, append_assoc}
use mathlib.Core.Option.{some}
use mathlib.Core.Logic.{inl, inr, ◌≢◌}
use native.Mathlib.Omega.{arith}
use native.Mathlib.Nat.{pow-suc}
use headless_siem.Prelude.Tests.{ltb, if◌then◌else◌, Bool-cases, ltb→lt}
use headless_siem.Prelude.Equality.{◌==◌, nat_eq}
use headless_siem.Prelude.Lists.{length, replicate, length-append, all}
use headless_siem.Prelude.Texts.{Text, text_lt, is_ascii_digit, digits_below, parse_unsigned}
use headless_siem.Prelude.Numerals.{
  parse_unsigned-of, digits_below-decimal, decimal-digits, decimal-length, all-append,
}
use headless_siem.Prelude.Integers.{pos, parse_signed}
use headless_siem.Prelude.Decimals.{decimal, decimal_from, padded}

-- The last `w` digits of a number.
fixed : ℕ → ℕ → Text
fixed zero n = []
fixed (suc w) n = fixed w (n / 10) ++ (b'0' + n % 10) ∷ []

zeros : ℕ → Text
zeros w = replicate w b'0'

zeros-last : (w : ℕ) → zeros w ++ b'0' ∷ [] ≡ zeros (suc w)
unfolding zeros
zeros-last zero = refl
zeros-last (suc w) = ap (λ s. b'0' ∷ s) (zeros-last w)

fixed-zero : (w : ℕ) → fixed w 0 ≡ zeros w
unfolding fixed zeros
fixed-zero zero = refl
fixed-zero (suc w) = ap (λ (s : Text). s ++ b'0' ∷ []) (fixed-zero w) ∙ zeros-last w

-- A text filled up with zeros to a width.
abbrev fill : ℕ → Text → Text
fill w s = zeros (w - length s) ++ s

fill-last : (w c : ℕ) (s : Text) → fill (suc w) (s ++ c ∷ []) ≡ fill w s ++ c ∷ []
fill-last w c s =
    ap (λ n. zeros n ++ (s ++ c ∷ [])) (ground (arith, length-append s (c ∷ [])))
    ∙ sym (append_assoc (zeros (w - length s)) s (c ∷ []))

ltb_div : (n : ℕ) → n < 10 → n / 10 ≡ 0
ltb_div n lt = omega arith

wide : (w n : ℕ) → n < 10 ^ suc w → ltb n 10 ≡ false → 0 < w
wide zero n fits h = ground (arith, h)
wide (suc w) n fits h = omega arith

fill-decimal_from :
    (w fuel n : ℕ) → n < fuel → n < 10 ^ w → 0 < w → fill w (decimal_from fuel n) ≡ fixed w n
unfolding decimal_from fixed
fill-decimal_from w zero n lt fits positive = absurd (omega arith)
fill-decimal_from zero (suc fuel) n lt fits positive = absurd (omega arith)
fill-decimal_from (suc w) (suc fuel) n lt fits positive = elim (Bool-cases (ltb n 10)) [
  | inl h ↦
      rw h rw (ap (fixed w) (ltb_div n (ltb→lt n 10 h))) rw (fixed-zero w)
        (ap₂ (λ (z c : ℕ). zeros z ++ (b'0' + c) ∷ []) (omega arith) (omega (arith, ltb→lt n 10 h)))
  | inr h ↦ rw h (
      fill-last w (b'0' + n % 10) (decimal_from fuel (n / 10))
      ∙ ap (λ (s : Text). s ++ (b'0' + n % 10) ∷ [])
          (fill-decimal_from w fuel (n / 10) (ground arith) (omega (arith, pow-suc 10 w))
            (wide w n fits h)))
]

-- Padded numbers of one width have the order of the numbers, and then that of what follows.
text_lt-fixed :
    (w a b : ℕ) (s t : Text)
    → a < 10 ^ w
    → b < 10 ^ w
    → text_lt (fixed w a ++ s) (fixed w b ++ t)
      ≡ (if ltb a b then true else if a == b then text_lt s t else false)
unfolding fixed text_lt
text_lt-fixed zero a b s t la lb = ground arith
text_lt-fixed (suc w) a b s t la lb =
    rw (append_assoc (fixed w (a / 10)) ((b'0' + a % 10) ∷ []) s) rw
      (append_assoc (fixed w (b / 10)) ((b'0' + b % 10) ∷ []) t) rw
      (text_lt-fixed w (a / 10) (b / 10) ((b'0' + a % 10) ∷ s) ((b'0' + b % 10) ∷ t)
        (omega (arith, pow-suc 10 w)) (omega (arith, pow-suc 10 w)))
      (ground arith)

padded-fixed : (w n : ℕ) → n < 10 ^ w → 0 < w → padded w n ≡ fixed w n
unfolding padded decimal zeros
padded-fixed w n fits positive = fill-decimal_from w (suc n) n (omega arith) fits positive

length-fixed : (w n : ℕ) → length (fixed w n) ≡ w
unfolding fixed
length-fixed zero n = refl
length-fixed (suc w) n =
    omega (arith, length-append (fixed w (n / 10)) ((b'0' + n % 10) ∷ []), length-fixed w (n / 10))

pub length-padded : (w n : ℕ) → n < 10 ^ w → 0 < w → length (padded w n) ≡ w
length-padded w n fits positive = ap length (padded-fixed w n fits positive) ∙ length-fixed w n

pub text_lt-padded :
    (w a b : ℕ) (s t : Text)
    → a < 10 ^ w
    → b < 10 ^ w
    → 0 < w
    → text_lt (padded w a ++ s) (padded w b ++ t)
      ≡ (if ltb a b then true else if a == b then text_lt s t else false)
text_lt-padded w a b s t la lb positive =
    ap₂ (λ (x y : Text). text_lt (x ++ s) (y ++ t)) (padded-fixed w a la positive)
      (padded-fixed w b lb positive)
    ∙ text_lt-fixed w a b s t la lb

-- A padded number is parsed back: leading zeros add nothing.
digits_below-zeros :
    (bound k : ℕ) (s : Text)
    → 0 < bound
    → digits_below bound 0 (zeros k ++ s) ≡ digits_below bound 0 s
unfolding digits_below is_ascii_digit zeros
digits_below-zeros bound zero s positive = refl
digits_below-zeros bound (suc k) s positive = ground (arith, digits_below-zeros bound k s positive)

zeros-digits : (k : ℕ) → all is_ascii_digit (zeros k) ≡ true
unfolding zeros is_ascii_digit
zeros-digits zero = refl
zeros-digits (suc k) = zeros-digits k

pub padded-digits : (w n : ℕ) → all is_ascii_digit (padded w n) ≡ true
unfolding padded zeros
padded-digits w n = ground (
  arith,
  all-append is_ascii_digit (zeros (w - length (decimal n))) (decimal n),
  zeros-digits (w - length (decimal n)),
  decimal-digits n,
)

padded-nonempty : (w n : ℕ) → padded w n ≢ []
unfolding padded zeros
padded-nonempty w n h = absurd (
    omega (
      arith,
      decimal-length n,
      length-append (zeros (w - length (decimal n))) (decimal n),
      ap length h,
    ))

pub parse_unsigned-padded : (bound w n : ℕ) → n < bound → parse_unsigned bound (padded w n) ≡ some n
unfolding padded zeros
parse_unsigned-padded bound w n lt =
    parse_unsigned-of bound n (padded w n) (padded-digits w n) (padded-nonempty w n) (
      digits_below-zeros bound (w - length (decimal n)) (decimal n) (omega (arith, lt))
      ∙ digits_below-decimal bound n lt)

pub parse_signed-digits :
    (bound n : ℕ) (s : Text)
    → all is_ascii_digit s ≡ true
    → parse_unsigned bound s ≡ some n
    → parse_signed bound s ≡ some (pos n)
unfolding parse_signed is_ascii_digit
parse_signed-digits bound n [] h p = ground (arith, p)
parse_signed-digits bound n (c ∷ s) h p = ground (arith, h, p)
