-- ===== src/Siemctl/Window/Durations.antt =====
-- src/siemctl/src/time.rs, `parse_duration`: what it reads.
use headless_siem.Prelude.{
  ℕ, zero, suc, ◌<◌, ◌^◌, ◌≡◌, ◌≢◌, refl, sym, ap, ◌∙◌, Text, true, false, Option, some, [], ◌∷◌,
  ◌++◌, reverse, all, is_whitespace, trim, trim_start, is_ascii_digit, parse_signed, decimal, pos,
  nat_eq, arith, and_left,
}
use mathlib.Core.List.{reverse-append, reverse-reverse}
use headless_siem.Prelude.Numerals.{decimal-digits, decimal-nonempty, parse_unsigned-decimal}
use headless_siem.Prelude.Padding.{parse_signed-digits}
use headless_siem.Siemctl.Window.LastChar.{by_last_char, parse_duration-by_last_char}
use headless_siem.Siemctl.Window.{
  Spans, or_panic, parse_duration, positive_duration, duration_of_unit,
}

pub data TimeUnit : Type 0 where
  second minute hour day : TimeUnit

abbrev pub letter : TimeUnit → ℕ
letter second = b's'
letter minute = b'm'
letter hour = b'h'
letter day = b'd'

trim_start-solid : (c : ℕ) (s : Text) → is_whitespace c ≡ false → trim_start (c ∷ s) ≡ c ∷ s
unfolding trim_start
trim_start-solid c s h = rw h refl

-- A text with a first and a last character that are no white space.
trim-solid :
    (c u : ℕ) (s : Text)
    → is_whitespace c ≡ false
    → is_whitespace u ≡ false
    → trim (c ∷ s ++ u ∷ []) ≡ c ∷ s ++ u ∷ []
unfolding trim
trim-solid c u s hc hu =
    ap (λ r. reverse (trim_start (reverse r))) (trim_start-solid c (s ++ u ∷ []) hc)
    ∙ ap (λ r. reverse (trim_start r)) (reverse-append (c ∷ s) (u ∷ []))
    ∙ ap reverse (trim_start-solid u (reverse (c ∷ s)) hu ∙ sym (reverse-append (c ∷ s) (u ∷ [])))
    ∙ reverse-reverse (c ∷ s ++ u ∷ [])

digit-solid : (c : ℕ) → is_ascii_digit c ≡ true → is_whitespace c ≡ false
unfolding is_ascii_digit is_whitespace
digit-solid c h = ground (arith, h)

letter-solid : (u : TimeUnit) → is_whitespace (letter u) ≡ false
unfolding is_whitespace
letter-solid second = refl
letter-solid minute = refl
letter-solid hour = refl
letter-solid day = refl

trim-number :
    (s : Text) (u : ℕ)
    → all is_ascii_digit s ≡ true
    → s ≢ []
    → is_whitespace u ≡ false
    → trim (s ++ u ∷ []) ≡ s ++ u ∷ []
trim-number [] u h ne hu = absurd (ne refl)
trim-number (c ∷ s) u h ne hu =
    trim-solid c u s (digit-solid c (and_left (is_ascii_digit c) (all is_ascii_digit s) h)) hu

reverse-nonempty : (n : ℕ) → reverse (decimal n) ≢ []
reverse-nonempty n h = decimal-nonempty n (sym (reverse-reverse (decimal n)) ∙ ap reverse h)

module _ {I D : Type 0} (S : Spans I D) where
  abbrev pub span : TimeUnit → ℕ → Option D
  span second n = S.seconds n
  span minute n = S.minutes n
  span hour n = S.hours n
  span day n = S.days n

  -- A text whose last character is an ASCII one, behind others.
  by_last_char-ascii :
      (s front : Text) (unit : ℕ)
      → unit < 128
      → front ≢ []
      → by_last_char S s (unit ∷ front)
        ≡ positive_duration S s (unit ∷ []) (parse_signed (2 ^ 63) (reverse front))
  unfolding by_last_char
  by_last_char-ascii s [] unit lt ne = absurd (ne refl)
  by_last_char-ascii s (c ∷ front) unit lt ne = ground arith

  duration_of_unit-letter :
      (s : Text) (u : TimeUnit) (n : ℕ)
      → duration_of_unit S s (letter u ∷ []) n ≡ or_panic (span u n)
  unfolding duration_of_unit
  duration_of_unit-letter s second n = refl
  duration_of_unit-letter s minute n = refl
  duration_of_unit-letter s hour n = refl
  duration_of_unit-letter s day n = refl

  positive_duration-suc :
      (s : Text) (u : TimeUnit) (n : ℕ)
      → 0 < n
      → positive_duration S s (letter u ∷ []) (some (pos n)) ≡ or_panic (span u n)
  unfolding positive_duration
  positive_duration-suc s u zero lt = absurd (omega arith)
  positive_duration-suc s u (suc n) lt = duration_of_unit-letter s u (suc n)

  letter-ascii : (u : TimeUnit) → letter u < 128
  letter-ascii second = omega arith
  letter-ascii minute = omega arith
  letter-ascii hour = omega arith
  letter-ascii day = omega arith

  -- A positive number below 2^63, printed in decimal and followed by the letter of a unit, is read
  -- as that many of the unit, with chrono's panic where it has no such duration.
  pub parse_duration-decimal :
      (n : ℕ) (u : TimeUnit)
      → 0 < n
      → n < 2 ^ 63
      → parse_duration S (decimal n ++ letter u ∷ []) ≡ or_panic (span u n)
  parse_duration-decimal n u lo hi =
      let text = decimal n ++ letter u ∷ [] in
      parse_duration-by_last_char S text
      ∙ rw
          (trim-number (decimal n) (letter u) (decimal-digits n) (decimal-nonempty n)
            (letter-solid u))
          (ap (by_last_char S text) (reverse-append (decimal n) (letter u ∷ []))
            ∙ by_last_char-ascii text (reverse (decimal n)) (letter u) (letter-ascii u)
                (reverse-nonempty n)
            ∙ ap (λ r. positive_duration S text (letter u ∷ []) (parse_signed (2 ^ 63) r))
                (reverse-reverse (decimal n))
            ∙ ap (positive_duration S text (letter u ∷ [])) (
                parse_signed-digits (2 ^ 63) n (decimal n) (decimal-digits n)
                  (parse_unsigned-decimal (2 ^ 63) n hi))
            ∙ positive_duration-suc text u n lo)
