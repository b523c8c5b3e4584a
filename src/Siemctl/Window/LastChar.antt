-- ===== src/Siemctl/Window/LastChar.antt =====
-- src/siemctl/src/time.rs, `parse_duration`: where the split before the last byte falls.
use headless_siem.Prelude.{
  ℕ, zero, suc, ◌+◌, ◌-◌, ◌≤◌, ◌<◌, append-nil, ◌^◌, ◌≡◌, refl, sym, ap, ◌∙◌, Text, trim, reverse,
  is_empty, true, false, Option, none, some, [], ◌∷◌, ◌++◌, ltb, if◌then◌else◌, arith, parse_signed,
  Bool-cases, inl, inr,
}
use mathlib.Core.List.{reverse-append, reverse-reverse}
use headless_siem.Prelude.Results.{Result, err}
use headless_siem.Bytes.{len_utf8, byte_length, before, split_at}
use headless_siem.Siemctl.Window.{
  Spans, TimeError, invalid_duration, panics, positive_duration, number_and_unit, trimmed_duration,
  parse_duration,
}

len_utf8-positive : (c : ℕ) → 1 ≤ len_utf8 c
len_utf8-positive c = ground arith

byte_length-append : (s t : Text) → byte_length (s ++ t) ≡ byte_length s + byte_length t
unfolding byte_length
byte_length-append [] t = omega arith
byte_length-append (c ∷ s) t = omega (arith, byte_length-append s t)

-- Characters joined before both parts.
abbrev all_before : Text → Option (Text × Text) → Option (Text × Text)
all_before s none = none
all_before s (some (front, rest)) = some (s ++ front, rest)

before-all_before :
    (c : ℕ) (s : Text) (r : Option (Text × Text)) → before c (all_before s r) ≡ all_before (c ∷ s) r
before-all_before c s none = refl
before-all_before c s (some r) = refl

all_before-nothing : (r : Option (Text × Text)) → r ≡ all_before [] r
all_before-nothing none = refl
all_before-nothing (some r) = refl

split_at-front :
    (m c : ℕ) (s : Text)
    → len_utf8 c ≤ m
    → split_at m (c ∷ s) ≡ before c (split_at (m - len_utf8 c) s)
unfolding split_at
split_at-front zero c s h = absurd (omega (arith, h, len_utf8-positive c))
split_at-front (suc m) c s h = ground (arith, h)

-- A position behind some characters is one in the rest.
split_at-append :
    (s t : Text) (k : ℕ) → split_at (byte_length s + k) (s ++ t) ≡ all_before s (split_at k t)
unfolding byte_length
split_at-append [] t k = ap (λ n. split_at n t) (omega arith) ∙ all_before-nothing (split_at k t)
split_at-append (c ∷ s) t k =
    split_at-front (len_utf8 c + byte_length s + k) c (s ++ t) (omega arith)
    ∙ ap (λ n. before c (split_at n (s ++ t))) (omega arith)
    ∙ ap (before c) (split_at-append s t k)
    ∙ before-all_before c s (split_at k t)

split_at-last_ascii :
    (c : ℕ) → ltb c 128 ≡ true → split_at (len_utf8 c - 1) (c ∷ []) ≡ some ([], c ∷ [])
unfolding split_at
split_at-last_ascii c h = rw h refl

split_at-inside : (m c : ℕ) → 1 ≤ m → m + 1 ≤ len_utf8 c → split_at m (c ∷ []) ≡ none
unfolding split_at
split_at-inside zero c lo hi = absurd (omega arith)
split_at-inside (suc m) c lo hi = ground (arith, hi)

split_at-last_wide : (c : ℕ) → ltb c 128 ≡ false → split_at (len_utf8 c - 1) (c ∷ []) ≡ none
split_at-last_wide c h = split_at-inside (len_utf8 c - 1) c (ground (arith, h)) (ground (arith, h))

len_utf8-wide : (c : ℕ) → ltb c 128 ≡ false → 2 ≤ len_utf8 c
len_utf8-wide c h = ground (arith, h)

len_utf8-ascii : (c : ℕ) → ltb c 128 ≡ true → len_utf8 c ≡ 1
len_utf8-ascii c h = rw h refl

byte_length-nil : byte_length [] ≡ 0
unfolding byte_length
byte_length-nil = refl

not_below : (m n : ℕ) → n ≤ m → ltb m n ≡ false
not_below m n h = ground (arith, h)

is_below : (m n : ℕ) → m < n → ltb m n ≡ true
is_below m n h = ground (arith, h)

byte_length-last : (s : Text) (c : ℕ) → byte_length (s ++ c ∷ []) ≡ byte_length s + len_utf8 c
unfolding byte_length
byte_length-last s c = omega (arith, byte_length-append s (c ∷ []))

-- The split before the last byte is one of the last character alone.
split_at-last :
    (s : Text) (c : ℕ)
    → split_at (byte_length (s ++ c ∷ []) - 1) (s ++ c ∷ [])
      ≡ all_before s (split_at (len_utf8 c - 1) (c ∷ []))
split_at-last s c =
    ap (λ n. split_at n (s ++ c ∷ [])) (omega (arith, byte_length-last s c, len_utf8-positive c))
    ∙ split_at-append s (c ∷ []) (len_utf8 c - 1)

byte_length-reverse : (c : ℕ) (s : Text) → 1 ≤ byte_length (reverse (c ∷ s))
byte_length-reverse c s = omega (
  arith,
  ap byte_length (reverse-append (c ∷ []) s),
  byte_length-last (reverse s) c,
  len_utf8-positive c,
)

module _ {I D : Type 0} (S : Spans I D) where
  -- What is made of a text, by its last character, which is the unit. The text in reverse.
  unfoldable pub by_last_char : Text → Text → Result TimeError D
  by_last_char s [] = err (invalid_duration s)
  by_last_char s (unit ∷ front) =
      if ltb unit 128
      then (if is_empty front
          then err (invalid_duration s)
          else positive_duration S s (unit ∷ []) (parse_signed (2 ^ 63) (reverse front)))
      else err panics

  trimmed_duration-long :
      (s t : Text) (c : ℕ)
      → s ≡ t ++ c ∷ []
      → 2 ≤ byte_length t + len_utf8 c
      → trimmed_duration S s
        ≡ number_and_unit S s (all_before t (split_at (len_utf8 c - 1) (c ∷ [])))
  unfolding trimmed_duration
  trimmed_duration-long s t c same h =
      let long = ap byte_length same ∙ byte_length-last t c in
      rw (not_below (byte_length s) 2 (omega (arith, long, h))) (
        ap (λ x. number_and_unit S s (split_at (byte_length x - 1) x)) same
        ∙ ap (number_and_unit S s) (split_at-last t c))

  by_last-wide :
      (s front : Text) (unit : ℕ)
      → s ≡ reverse front ++ unit ∷ []
      → ltb unit 128 ≡ false
      → trimmed_duration S s ≡ by_last_char s (unit ∷ front)
  unfolding by_last_char number_and_unit
  by_last-wide s front unit same h =
      trimmed_duration-long s (reverse front) unit same (omega (arith, len_utf8-wide unit h))
      ∙ ap (λ r. number_and_unit S s (all_before (reverse front) r)) (split_at-last_wide unit h)
      ∙ rw h refl

  by_last-ascii :
      (s front : Text) (unit : ℕ)
      → s ≡ reverse front ++ unit ∷ []
      → ltb unit 128 ≡ true
      → trimmed_duration S s ≡ by_last_char s (unit ∷ front)
  unfolding trimmed_duration by_last_char number_and_unit
  by_last-ascii s [] unit same h =
      rw h rw
        (is_below (byte_length s) 2 (
          omega (
            arith,
            ap byte_length same ∙ byte_length-last [] unit,
            len_utf8-ascii unit h,
            byte_length-nil,
          )))
        refl
  by_last-ascii s (c ∷ front) unit same h =
      trimmed_duration-long s (reverse (c ∷ front)) unit same
        (omega (arith, byte_length-reverse c front, len_utf8-positive unit))
      ∙ ap (λ r. number_and_unit S s (all_before (reverse (c ∷ front)) r))
          (split_at-last_ascii unit h)
      ∙ ap (λ t. positive_duration S s (unit ∷ []) (parse_signed (2 ^ 63) t))
          (append-nil (reverse (c ∷ front)))
      ∙ rw h refl

  trimmed_duration-reverse : (s r : Text) → s ≡ reverse r → trimmed_duration S s ≡ by_last_char s r
  unfolding trimmed_duration by_last_char byte_length
  trimmed_duration-reverse s [] same =
      ap (λ t. trimmed_duration S t) same ∙ ap (λ t. err (invalid_duration t)) (sym same)
  trimmed_duration-reverse s (unit ∷ front) same = elim (Bool-cases (ltb unit 128)) [
    | inl h ↦ by_last-ascii s front unit (same ∙ reverse-append (unit ∷ []) front) h
    | inr h ↦ by_last-wide s front unit (same ∙ reverse-append (unit ∷ []) front) h
  ]

  -- Although `parse_duration` counts bytes, its split is one of the last character: it reads the
  -- characters before it as the number and it as the unit if it is ASCII, gives an error if it stands
  -- alone or the text is blank, and panics if it is not ASCII, whatever stands before it.
  pub parse_duration-by_last_char :
      (s : Text) → parse_duration S s ≡ by_last_char (trim s) (reverse (trim s))
  unfolding parse_duration
  parse_duration-by_last_char s =
      trimmed_duration-reverse (trim s) (reverse (trim s)) (sym (reverse-reverse (trim s)))
