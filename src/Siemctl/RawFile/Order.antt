-- ===== src/Siemctl/RawFile/Order.antt =====
-- src/siemctl/src/time.rs, `raw_file_bound` and `raw_file_range`: bounds that sort by text sort by time.
use headless_siem.Prelude.{
  ℕ, length, append-nil, append_assoc, ◌<◌, ◌^◌, ◌≡◌, refl, ap, ◌∙◌, Text, codes, text_lt, Bool,
  true, false, List, [], ◌∷◌, ◌++◌, ltb, ◌==◌, nat_eq, if◌then◌else◌, ℤ, pos, negsuc, arith, padded,
  padded_int,
}
use headless_siem.Prelude.Padding.{text_lt-padded}
use headless_siem.Siemctl.RawFile.{Civil, raw_file_bound}

-- The fields of an instant, the year (0 where it is negative) first.
abbrev pub magnitude : ℤ → ℕ
magnitude (pos n) = n
magnitude (negsuc n) = 0

-- An instant of the years 0 to 9999, as the calendar has them.
pub record FourDigits {I : Type 0} ⦃C : Civil I⦄ (t : I) : Type 0 where
  pub year_pos : C.year t ≡ pos (magnitude (C.year t))
  pub year_fits : magnitude (C.year t) < 10 ^ 4
  pub month_fits : C.month t < 10 ^ 2
  pub day_fits : C.day t < 10 ^ 2
  pub hour_fits : C.hour t < 10 ^ 2
  pub minute_fits : C.minute t < 10 ^ 2
  pub second_fits : C.second t < 10 ^ 2

-- The order of two lists by their first difference.
unfoldable pub first_lt : List ℕ → List ℕ → Bool
first_lt (a ∷ l) (b ∷ m) =
    let rest = first_lt l m in if ltb a b then true else if a == b then rest else false
first_lt _ _ = false

-- Two-digit fields, each behind a slash.
abbrev pub tail_text : List ℕ → Text
tail_text [] = []
tail_text (n ∷ l) = b'/' ∷ (padded 2 n ++ tail_text l)

abbrev AllShort : List ℕ → Type 0
AllShort [] = Unit
AllShort (n ∷ l) = (n < 10 ^ 2) × AllShort l

text_lt-tail_text :
    (l m : List ℕ)
    → AllShort l
    → AllShort m
    → length l ≡ length m
    → text_lt (tail_text l) (tail_text m) ≡ first_lt l m
unfolding text_lt first_lt
text_lt-tail_text [] [] hl hm e = refl
text_lt-tail_text [] (b ∷ m) hl hm e = absurd (omega (arith, e))
text_lt-tail_text (a ∷ l) [] hl hm e = absurd (omega (arith, e))
text_lt-tail_text (a ∷ l) (b ∷ m) hl hm e =
    rw (text_lt-padded 2 a b (tail_text l) (tail_text m) hl.0 hm.0 (omega arith)) rw
      (text_lt-tail_text l m hl.1 hm.1 (omega (arith, e))) refl

module _ {I : Type 0} ⦃C : Civil I⦄ where
  abbrev pub fields : I → List ℕ
  fields t = magnitude (C.year t) ∷ C.month t ∷ C.day t ∷ C.hour t ∷ C.minute t ∷ C.second t ∷ []

  abbrev pub short_fields : I → List ℕ
  short_fields t = C.month t ∷ C.day t ∷ C.hour t ∷ C.minute t ∷ C.second t ∷ []

  pub raw_file_bound-text :
      (t : I)
      → FourDigits t
      → raw_file_bound t
        ≡ codes "raw/" ++ (padded 4 (magnitude (C.year t)) ++ tail_text (short_fields t))
  unfolding raw_file_bound padded_int
  raw_file_bound-text t f =
      ap
        (λ (y : ℤ).
          codes "raw/"
          ++ padded_int 4 y
          ++ codes "/"
          ++ padded 2 (C.month t)
          ++ codes "/"
          ++ padded 2 (C.day t)
          ++ codes "/"
          ++ padded 2 (C.hour t)
          ++ codes "/"
          ++ padded 2 (C.minute t)
          ++ codes "/"
          ++ padded 2 (C.second t))
        f.year_pos
      ∙ simp (append_assoc, append-nil) refl

  short_fields-AllShort : (t : I) → FourDigits t → AllShort (short_fields t)
  short_fields-AllShort t f =
      (f.month_fits, (f.day_fits, (f.hour_fits, (f.minute_fits, (f.second_fits, tt)))))

  -- The bounds of two instants of the years 0 to 9999 compare as texts as the instants do by year,
  -- month, day, hour, minute and second.
  pub raw_file_bound-order :
      (s t : I)
      → FourDigits s
      → FourDigits t
      → text_lt (raw_file_bound s) (raw_file_bound t) ≡ first_lt (fields s) (fields t)
  unfolding first_lt text_lt
  raw_file_bound-order s t fs ft =
      rw (raw_file_bound-text s fs) rw (raw_file_bound-text t ft) rw
        (text_lt-padded 4 (magnitude (C.year s)) (magnitude (C.year t)) (tail_text (short_fields s))
          (tail_text (short_fields t)) fs.year_fits ft.year_fits (omega arith))
        rw
        (text_lt-tail_text (short_fields s) (short_fields t) (short_fields-AllShort s fs)
          (short_fields-AllShort t ft) refl)
        refl
