-- ===== src/Siemctl/RawFile/RoundTrip.antt =====
-- src/siemctl/src/time.rs, `parse_raw_file_time` on the paths that begin with a `raw_file_bound`.
use headless_siem.Prelude.{
  ℕ, ◌^◌, ◌≡◌, refl, sym, ap, ◌∙◌, Text, split, true, false, List, [], ◌∷◌, ◌++◌, map, nat_eq, ℤ,
  pos, arith, padded, all, is_ascii_digit, some, append-nil, append_assoc,
}
use headless_siem.Prelude.Numerals.{split-first}
use headless_siem.Prelude.Padding.{padded-digits, parse_unsigned-padded, parse_signed-digits}
use headless_siem.Siemctl.RawFile.{Civil, raw_file_bound, parse_raw_file_time, instant_of_path}
use headless_siem.Siemctl.RawFile.Order.{
  magnitude, FourDigits, tail_text, short_fields, raw_file_bound-text,
}

no_slash : is_ascii_digit b'/' ≡ false
unfolding is_ascii_digit
no_slash = refl

pub split-fields :
    (s : Text) (l : List ℕ) (name : Text)
    → all is_ascii_digit s ≡ true
    → split b'/' ((s ++ tail_text l) ++ b'/' ∷ name) ≡ s ∷ (map (padded 2) l ++ split b'/' name)
split-fields s [] name h =
    ap (λ (r : Text). split b'/' (r ++ b'/' ∷ name)) (append-nil s)
    ∙ split-first is_ascii_digit b'/' no_slash s name h
split-fields s (n ∷ l) name h =
    ap (split b'/') (append_assoc s (tail_text (n ∷ l)) (b'/' ∷ name))
    ∙ split-first is_ascii_digit b'/' no_slash s ((padded 2 n ++ tail_text l) ++ b'/' ∷ name) h
    ∙ ap (λ (r : List Text). s ∷ r) (split-fields (padded 2 n) l name (padded-digits 2 n))

module _ {I : Type 0} ⦃C : Civil I⦄ where
  instant_of_path-fields :
      (t : I) (rest : List Text)
      → FourDigits t
      → instant_of_path
          (padded 4 (magnitude (C.year t)) ∷ (map (padded 2) (short_fields t) ++ rest))
        ≡ C.with_ymd_and_hms
            (pos (magnitude (C.year t)))
            (C.month t)
            (C.day t)
            (C.hour t)
            (C.minute t)
            (C.second t)
  unfolding instant_of_path
  instant_of_path-fields t rest f =
      rw
        (parse_signed-digits (2 ^ 31) (magnitude (C.year t)) (padded 4 (magnitude (C.year t)))
          (padded-digits 4 (magnitude (C.year t)))
          (parse_unsigned-padded (2 ^ 31) 4 (magnitude (C.year t)) (omega (arith, f.year_fits))))
        rw (parse_unsigned-padded (2 ^ 32) 2 (C.month t) (omega (arith, f.month_fits))) rw
        (parse_unsigned-padded (2 ^ 32) 2 (C.day t) (omega (arith, f.day_fits))) rw
        (parse_unsigned-padded (2 ^ 32) 2 (C.hour t) (omega (arith, f.hour_fits))) rw
        (parse_unsigned-padded (2 ^ 32) 2 (C.minute t) (omega (arith, f.minute_fits))) rw
        (parse_unsigned-padded (2 ^ 32) 2 (C.second t) (omega (arith, f.second_fits))) refl

  -- An instant that the calendar rebuilds from its fields, in the years 0 to 9999, is recovered
  -- from every path that begins with its bound and goes on with a slash and a name.
  pub parse_raw_file_time-bound :
      (t : I) (name : Text)
      → FourDigits t
      → C.with_ymd_and_hms (C.year t) (C.month t) (C.day t) (C.hour t) (C.minute t) (C.second t)
        ≡ some t
      → parse_raw_file_time (raw_file_bound t ++ b'/' ∷ name) ≡ some t
  unfolding parse_raw_file_time
  parse_raw_file_time-bound t name f whole = rw (raw_file_bound-text t f) (
      ap instant_of_path (
        split-fields (padded 4 (magnitude (C.year t))) (short_fields t) name
          (padded-digits 4 (magnitude (C.year t))))
      ∙ instant_of_path-fields t (split b'/' name) f
      ∙ ap
          (λ (y : ℤ).
            C.with_ymd_and_hms y (C.month t) (C.day t) (C.hour t) (C.minute t) (C.second t))
          (sym f.year_pos)
      ∙ whole)
