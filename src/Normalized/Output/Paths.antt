-- ===== src/Normalized/Output/Paths.antt =====
-- src/normalized/src/output.rs and src/indexd/src/db.rs: `indexd` finds the hour of a file in its path.
use headless_siem.Prelude.{
  ℕ, ◌<◌, ◌^◌, ◌≡◌, refl, sym, ap, ap₂, ◌∙◌, Text, codes, split, ends_with, is_empty, join_path,
  padded, true, false, Bool-cases, ◌||◌, some, List, [], ◌∷◌, ◌++◌, map, reverse, all, length,
  ==_refl, Every, is_ascii_digit, is_ascii_alphanumeric, ◌==◌, nat_eq, list_eq, arith,
  if◌then◌else◌, inl, inr, append_assoc,
}
use mathlib.Core.Bool.{true≢false}
use mathlib.Core.List.{reverse-append}
use headless_siem.Prelude.Numerals.{all-append, split-only}
use headless_siem.Prelude.Padding.{padded-digits, length-padded}
use headless_siem.Siemctl.RawFile.{Civil, raw_file_bound}
use headless_siem.Siemctl.RawFile.Order.{
  magnitude, FourDigits, tail_text, short_fields, raw_file_bound-text,
}
use headless_siem.Siemctl.RawFile.RoundTrip.{split-fields}
use headless_siem.Indexd.Bucket.{
  derive_bucket, components, digits_of_length, inner_components, path_components,
  bucket_of_reversed,
}
use headless_siem.Normalized.Event.{is_label_char}
use headless_siem.Normalized.Event.Source.{SafeLabel}
use headless_siem.Normalized.Output.{rel_path, second_dir}

split-nonempty :
    (d : ℕ) (s : Text) → (part : Text) × (parts : List Text) × (split d s ≡ part ∷ parts)
unfolding split
split-nonempty d [] = ([], [], refl)
split-nonempty d (c ∷ s) =
    let (part, parts, q) = split-nonempty d s in
    elim (Bool-cases (c == d)) [
      | inl e ↦ ([], split d s, rw (e, split) refl)
      | inr e ↦ (c ∷ part, parts, rw (e, split) rw q refl)
    ]

-- A separator ends a part.
split-append : (d : ℕ) (s t : Text) → split d (s ++ d ∷ t) ≡ split d s ++ split d t
unfolding split
split-append d [] t = ground arith
split-append d (c ∷ s) t = elim (Bool-cases (c == d)) [
  | inl e ↦ rw (e, split) (ap (λ (l : List Text). [] ∷ l) (split-append d s t))
  | inr e ↦
      let (part, parts, q) = split-nonempty d s in rw (e, split) rw (split-append d s t) rw q refl
]

inner_components-append :
    (l m : List Text) → inner_components (l ++ m) ≡ inner_components l ++ inner_components m
unfolding inner_components
inner_components-append [] m = refl
inner_components-append (s ∷ l) m = elim (Bool-cases (is_empty s || s == codes ".")) [
  | inl e ↦ rw (e, inner_components) (inner_components-append l m)
  | inr e ↦ rw (e, inner_components) (ap (λ (r : List Text). s ∷ r) (inner_components-append l m))
]

abbrev Kept : Text → Type 0
Kept s = (is_empty s || s == codes ".") ≡ false

inner_components-Kept : (l : List Text) → Every Kept l → inner_components l ≡ l
unfolding inner_components
inner_components-Kept [] h = refl
inner_components-Kept (s ∷ l) h =
    rw (h.0, inner_components) (ap (λ (r : List Text). s ∷ r) (inner_components-Kept l h.1))

path_components-long :
    (p x : Text) (ps xs : List Text)
    → path_components (p ∷ (ps ++ x ∷ xs))
      ≡ (if is_empty p then codes "/" else p) ∷ inner_components (ps ++ x ∷ xs)
path_components-long p x [] xs = refl
path_components-long p x (q ∷ ps) xs = refl

-- The components of a path end with those of its relative part.
components-joined :
    (a b : Text)
    → (front : List Text) × (components (a ++ b'/' ∷ b) ≡ front ++ inner_components (split b'/' b))
unfolding components
components-joined a b =
    let (p, ps, q) = split-nonempty b'/' a in
    let (x, xs, r) = split-nonempty b'/' b in
    (
      (if is_empty p then codes "/" else p) ∷ inner_components ps,
      ap path_components (split-append b'/' a b ∙ ap₂ (λ (l m : List Text). l ++ m) q r)
          ∙ path_components-long p x ps xs
          ∙ ap (λ (l : List Text). (if is_empty p then codes "/" else p) ∷ l)
              (inner_components-append ps (x ∷ xs)
                ∙ ap (λ l. inner_components ps ++ inner_components l) (sym r)),
    )

Kept-digits : (s : Text) → all is_ascii_digit s ≡ true → 0 < length s → Kept s
unfolding is_ascii_digit
Kept-digits [] h lt = absurd (omega arith)
Kept-digits (c ∷ s) h lt = ground (arith, h)

Kept-name : (s : Text) → is_empty s ≡ false → Kept (s ++ codes ".jsonl")
Kept-name [] h = absurd (true≢false h)
Kept-name (c ∷ []) h = ground arith
Kept-name (c ∷ x ∷ s) h = ground arith

abbrev pub bucket_text : Text → Text → Text → Text → Text
bucket_text y mo d h = y ++ codes "/" ++ mo ++ codes "/" ++ d ++ codes "/" ++ h

bucket_of_reversed-digits :
    (name s mi h d mo y : Text) (rest : List Text)
    → digits_of_length 4 y ≡ true
    → digits_of_length 2 mo ≡ true
    → digits_of_length 2 d ≡ true
    → digits_of_length 2 h ≡ true
    → bucket_of_reversed (name ∷ s ∷ mi ∷ h ∷ d ∷ mo ∷ y ∷ rest) ≡ some (bucket_text y mo d h)
unfolding bucket_of_reversed
bucket_of_reversed-digits name s mi h d mo y rest hy hmo hd hh = rw hy rw hmo rw hd rw hh refl

padded-digits_of_length : (w n : ℕ) → n < 10 ^ w → 0 < w → digits_of_length w (padded w n) ≡ true
padded-digits_of_length w n fits positive =
    rw (length-padded w n fits positive) rw (padded-digits w n) rw (==_refl w) refl

padded-Kept : (w n : ℕ) → n < 10 ^ w → 0 < w → Kept (padded w n)
padded-Kept w n fits positive =
    Kept-digits (padded w n) (padded-digits w n) (omega (arith, length-padded w n fits positive))

split-raw : (s : Text) → split b'/' (codes "raw/" ++ s) ≡ codes "raw" ∷ split b'/' s
unfolding split
split-raw s = refl

name-label_chars :
    (source : Text)
    → all is_label_char source ≡ true
    → all is_label_char (source ++ codes ".jsonl") ≡ true
name-label_chars source h =
    all-append is_label_char source (codes ".jsonl")
    ∙ rw h (unfold is_label_char is_ascii_alphanumeric is_ascii_digit in refl)

module _ {I : Type 0} ⦃C : Civil I⦄ where
  -- The path that `OutputRouter::write` gives to a record.
  abbrev pub file_path : Text → I → Text → Text
  file_path data_dir t source = join_path data_dir (rel_path t source) ++ codes ".jsonl"

  abbrev pub year_text : I → Text
  year_text t = padded 4 (magnitude (C.year t))

  abbrev parts : I → Text → List Text
  parts t source =
      codes "raw"
      ∷ year_text t
      ∷ (map (padded 2) (short_fields t) ++ (source ++ codes ".jsonl") ∷ [])

  second_dir-raw_file_bound : (t : I) → second_dir t ≡ raw_file_bound t
  unfolding second_dir raw_file_bound
  second_dir-raw_file_bound t = refl

  second_dir-text :
      (t : I)
      → FourDigits t
      → second_dir t ≡ codes "raw/" ++ (year_text t ++ tail_text (short_fields t))
  second_dir-text t f = second_dir-raw_file_bound t ∙ raw_file_bound-text t f

  rel_path-text :
      (t : I) (source : Text)
      → FourDigits t
      → rel_path t source ++ codes ".jsonl"
        ≡ codes "raw/"
          ++ ((year_text t ++ tail_text (short_fields t)) ++ b'/' ∷ (source ++ codes ".jsonl"))
  unfolding rel_path
  rel_path-text t source f =
      let dir = year_text t ++ tail_text (short_fields t) in
      ap (λ (d : Text). ((d ++ codes "/") ++ source) ++ codes ".jsonl") (second_dir-text t f)
      ∙ ap (λ (r : Text). codes "raw/" ++ r)
          (append_assoc (dir ++ codes "/") source (codes ".jsonl")
            ∙ append_assoc dir (codes "/") (source ++ codes ".jsonl"))

  rel_path-split :
      (t : I) (source : Text)
      → FourDigits t
      → SafeLabel source
      → split b'/' (rel_path t source ++ codes ".jsonl") ≡ parts t source
  rel_path-split t source f safe =
      let name = source ++ codes ".jsonl" in
      ap (split b'/') (rel_path-text t source f)
      ∙ split-raw ((year_text t ++ tail_text (short_fields t)) ++ b'/' ∷ name)
      ∙ ap (λ (l : List Text). codes "raw" ∷ l)
          (split-fields (year_text t) (short_fields t) name (padded-digits 4 (magnitude (C.year t)))
            ∙ ap (λ (l : List Text). year_text t ∷ (map (padded 2) (short_fields t) ++ l))
                (split-only is_label_char b'/'
                  (unfold is_label_char is_ascii_alphanumeric is_ascii_digit in refl) name
                  (name-label_chars source safe.label_chars)))

  parts-Kept :
      (t : I) (source : Text) → FourDigits t → SafeLabel source → Every Kept (parts t source)
  parts-Kept t source f safe =
      let k4 = padded-Kept 4 in
      let k2 = padded-Kept 2 in
      (
        refl,
        (
          k4 (magnitude (C.year t)) f.year_fits (omega arith),
          (
            k2 (C.month t) f.month_fits (omega arith),
            (
              k2 (C.day t) f.day_fits (omega arith),
              (
                k2 (C.hour t) f.hour_fits (omega arith),
                (
                  k2 (C.minute t) f.minute_fits (omega arith),
                  (
                    k2 (C.second t) f.second_fits (omega arith),
                    (Kept-name source safe.not_empty, tt),
                  ),
                ),
              ),
            ),
          ),
        ),
      )

  file_path-text :
      (data_dir : Text) (t : I) (source : Text)
      → is_empty data_dir ≡ false
      → ends_with data_dir (codes "/") ≡ false
      → file_path data_dir t source ≡ data_dir ++ b'/' ∷ (rel_path t source ++ codes ".jsonl")
  unfolding join_path
  file_path-text data_dir t source given no_slash = rw given rw no_slash (
      append_assoc (data_dir ++ codes "/") (rel_path t source) (codes ".jsonl")
      ∙ append_assoc data_dir (codes "/") (rel_path t source ++ codes ".jsonl"))

  -- Let `data_dir` be a path that is not empty and does not end with a slash, let the instant lie in
  -- the years 0 to 9999, and let the label be one that `derive_source` may give. Of the file that
  -- `normalized` writes a record of this instant to, `indexd` derives the instant's hour.
  pub derive_bucket-file_path :
      (data_dir : Text) (t : I) (source : Text)
      → is_empty data_dir ≡ false
      → ends_with data_dir (codes "/") ≡ false
      → FourDigits t
      → SafeLabel source
      → derive_bucket (file_path data_dir t source)
        ≡ some (
            bucket_text
              (year_text t)
              (padded 2 (C.month t))
              (padded 2 (C.day t))
              (padded 2 (C.hour t)))
  unfolding derive_bucket
  derive_bucket-file_path data_dir t source given no_slash f safe =
      let (front, whole) = components-joined data_dir (rel_path t source ++ codes ".jsonl") in
      let here = parts t source in
      ap (λ p. bucket_of_reversed (reverse (components p)))
        (file_path-text data_dir t source given no_slash)
      ∙ ap (λ l. bucket_of_reversed (reverse l))
          (whole
            ∙ ap (λ l. front ++ inner_components l) (rel_path-split t source f safe)
            ∙ ap (λ (l : List Text). front ++ l)
                (inner_components-Kept here (parts-Kept t source f safe)))
      ∙ ap bucket_of_reversed (reverse-append front here)
      ∙ bucket_of_reversed-digits (source ++ codes ".jsonl") (padded 2 (C.second t))
          (padded 2 (C.minute t)) (padded 2 (C.hour t)) (padded 2 (C.day t)) (padded 2 (C.month t))
          (year_text t) (codes "raw" ∷ reverse front)
          (padded-digits_of_length 4 (magnitude (C.year t)) f.year_fits (omega arith))
          (padded-digits_of_length 2 (C.month t) f.month_fits (omega arith))
          (padded-digits_of_length 2 (C.day t) f.day_fits (omega arith))
          (padded-digits_of_length 2 (C.hour t) f.hour_fits (omega arith))
