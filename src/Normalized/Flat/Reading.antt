-- ===== src/Normalized/Flat/Reading.antt =====
-- src/normalized/src/event.rs, `serialize_flat`: a reader of flat JSON objects, by the grammar of
-- RFC 8259 without blanks and without pairs of surrogates, and what it reads back.
use headless_siem.Prelude.{
  ℕ, ◌+◌, ◌-◌, ◌*◌, ◌/◌, ◌%◌, ◌<◌, ◌≡◌, refl, sym, ap, ◌∙◌, Text, codes, true, false, Bool-cases,
  ◌&&◌, ◌||◌, Option, none, some, [], ◌∷◌, ◌++◌, append_assoc, ◌==◌, nat_eq, ltb, leb, ltb→lt,
  ==_iff, arith, if◌then◌else◌, inl, inr,
}
use headless_siem.Normalized.Flat.{hex_digit, escaped, escape}

-- Between two characters of a string, behind a backslash, or with so many digits left of `\u`.
pub data Mode : Type 0 where
  plainly behind_backslash : Mode
  in_hex : ℕ → ℕ → Mode

data Step : Type 0 where
  wrong closing : Step
  go : Mode → Step
  emit : ℕ → Step

hex_value : ℕ → Option ℕ
hex_value c =
    if leb b'0' c && leb c b'9'
    then some (c - b'0')
    else if leb b'a' c && leb c b'f'
    then some (c - b'a' + 10)
    else if leb b'A' c && leb c b'F'
    then some (c - b'A' + 10)
    else none

abbrev hex_step : ℕ → ℕ → Option ℕ → Step
hex_step left acc none = wrong
hex_step left acc (some d) =
    if left == 1 then emit (acc * 16 + d) else go (in_hex (left - 1) (acc * 16 + d))

step : Mode → ℕ → Step
unfolding hex_value
step plainly c =
    if c == 34
    then closing
    else if c == 92
    then go behind_backslash
    else if ltb c 32
    then wrong
    else emit c
step behind_backslash c =
    if c == 34 || c == 92 || c == b'/'
    then emit c
    else if c == b'b'
    then emit 8
    else if c == b'f'
    then emit 12
    else if c == b'n'
    then emit 10
    else if c == b'r'
    then emit 13
    else if c == b't'
    then emit 9
    else if c == b'u'
    then go (in_hex 4 0)
    else wrong
step (in_hex left acc) c = hex_step left acc (hex_value c)

abbrev prepend : ℕ → Option (Text × Text) → Option (Text × Text)
prepend c none = none
prepend c (some (s, rest)) = some (c ∷ s, rest)

-- Behind the opening quote: the string, and what follows the closing quote.
pub read_chars : Mode → Text → Option (Text × Text)
unfolding step
read_chars m [] = none
read_chars m (c ∷ s) = elim (step m c) [
  | wrong ↦ none
  | closing ↦ some ([], s)
  | go m' ↦ read_chars m' s
  | emit d ↦ prepend d (read_chars plainly s)
]

hex_value-hex_digit : (d : ℕ) → d < 16 → hex_value (hex_digit d) ≡ some d
unfolding hex_value
hex_value-hex_digit d lt = ground arith

first_digit : (a : ℕ) → a < 16 → step (in_hex 2 0) (hex_digit a) ≡ go (in_hex 1 a)
unfolding step
first_digit a lt = rw (hex_value-hex_digit a lt) (ap (λ n. go (in_hex 1 n)) (omega arith))

second_digit : (a b : ℕ) → b < 16 → step (in_hex 1 a) (hex_digit b) ≡ emit (a * 16 + b)
unfolding step
second_digit a b lt = rw (hex_value-hex_digit b lt) refl

read_chars-go :
    (m m' : Mode) (c : ℕ) (s : Text) → step m c ≡ go m' → read_chars m (c ∷ s) ≡ read_chars m' s
unfolding read_chars
read_chars-go m m' c s h = rw (h, read_chars) refl

read_chars-emit :
    (m : Mode) (c d : ℕ) (s : Text)
    → step m c ≡ emit d
    → read_chars m (c ∷ s) ≡ prepend d (read_chars plainly s)
unfolding read_chars
read_chars-emit m c d s h = rw (h, read_chars) refl

read_chars-zeros : (s : Text) → read_chars plainly (codes "\\u00" ++ s) ≡ read_chars (in_hex 2 0) s
unfolding read_chars step hex_value
read_chars-zeros s = refl

read_chars-hex :
    (a b : ℕ) (t : Text)
    → a < 16
    → b < 16
    → read_chars plainly (codes "\\u00" ++ hex_digit a ∷ hex_digit b ∷ t)
      ≡ prepend (a * 16 + b) (read_chars plainly t)
read_chars-hex a b t la lb =
    read_chars-zeros (hex_digit a ∷ hex_digit b ∷ t)
    ∙ read_chars-go (in_hex 2 0) (in_hex 1 a) (hex_digit a) (hex_digit b ∷ t) (first_digit a la)
    ∙ read_chars-emit (in_hex 1 a) (hex_digit b) (a * 16 + b) t (second_digit a b lb)

-- A character that is written as a backslash and a letter.
read_chars-letter :
    (c d letter : ℕ) (t : Text)
    → (c == d) ≡ true
    → step behind_backslash letter ≡ emit d
    → read_chars plainly (92 ∷ letter ∷ t) ≡ prepend c (read_chars plainly t)
read_chars-letter c d letter t same h =
    read_chars-go plainly behind_backslash 92 (letter ∷ t) (unfold step in refl)
    ∙ read_chars-emit behind_backslash letter d t h
    ∙ ap (λ n. prepend n (read_chars plainly t)) (sym ((==_iff c d).0 same))

plain_step :
    (c : ℕ) → (c == 34) ≡ false → (c == 92) ≡ false → ltb c 0x20 ≡ false → step plainly c ≡ emit c
unfolding step
plain_step c p q r = rw p rw q rw r refl

read_chars-escaped :
    (c : ℕ) (t : Text) → read_chars plainly (escaped c ++ t) ≡ prepend c (read_chars plainly t)
unfolding escaped
read_chars-escaped c t = elim (Bool-cases (c == 34)) [
  | inl e ↦ rw (e, escaped) (read_chars-letter c 34 34 t e (unfold step in refl))
  | inr not_quote ↦
      rw (not_quote, escaped)
        (elim (Bool-cases (c == 92)) [
          | inl e ↦ rw e (read_chars-letter c 92 92 t e (unfold step in refl))
          | inr not_slash ↦ rw not_slash (elim (Bool-cases (c == 10)) [
            | inl e ↦ rw e (read_chars-letter c 10 b'n' t e (unfold step in refl))
            | inr n ↦ rw n (elim (Bool-cases (c == 13)) [
              | inl e ↦ rw e (read_chars-letter c 13 b'r' t e (unfold step in refl))
              | inr r ↦ rw r (elim (Bool-cases (c == 9)) [
                | inl e ↦ rw e (read_chars-letter c 9 b't' t e (unfold step in refl))
                | inr tab ↦ rw tab (elim (Bool-cases (ltb c 0x20)) [
                  | inl low ↦ rw low (
                      read_chars-hex (c / 16) (c % 16) t (omega (arith, ltb→lt c 0x20 low))
                        (omega arith)
                      ∙ ap (λ n. prepend n (read_chars plainly t)) (omega arith))
                  | inr high ↦
                      rw high
                        (read_chars-emit plainly c c t (plain_step c not_quote not_slash high))
                ])
              ])
            ])
          ])
        ])
]

-- Every text in quotes is read back, with what follows it.
pub read_chars-escape :
    (s rest : Text) → read_chars plainly (escape s ++ 34 ∷ rest) ≡ some (s, rest)
unfolding escape
read_chars-escape [] rest = unfold read_chars step in refl
read_chars-escape (c ∷ s) rest =
    ap (read_chars plainly) (append_assoc (escaped c) (escape s) (34 ∷ rest))
    ∙ read_chars-escaped c (escape s ++ 34 ∷ rest)
    ∙ ap (prepend c) (read_chars-escape s rest)
