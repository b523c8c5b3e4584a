-- ===== src/Normalized/Event/Source.antt =====
-- src/normalized/src/event.rs, `derive_source`: the label is safe as a component of a path.
use headless_siem.Prelude.{
  ℕ, ◌≡◌, refl, sym, ap, ◌∙◌, Text, codes, Bool, true, false, Bool-cases, not, ==_of_ne, ◌||◌,
  Option, [], ◌∷◌, map, reverse, all, is_empty, is_ascii_alphanumeric, is_ascii_digit, ◌==◌, nat_eq,
  arith, and_left, and_right, if◌then◌else◌, inl, inr,
}
use mathlib.Core.Bool.{true≢false}
use mathlib.Core.List.{reverse-cons}
use headless_siem.Prelude.Numerals.{all-append}
use headless_siem.Normalized.Event.{
  Event, derive_source, sanitize_source, is_label_char, drop_leading, trim_matches, clean_char,
}

abbrev is_not_slash : ℕ → Bool
is_not_slash c = not (c == b'/')

-- Not empty, of letters, digits, `.`, `_` and `-` only, without a slash, and not made of dots.
pub record SafeLabel (s : Text) : Type 0 where
  pub not_empty : is_empty s ≡ false
  pub label_chars : all is_label_char s ≡ true
  pub no_slash : all is_not_slash s ≡ true
  pub not_dots : all (λ c. c == b'.') s ≡ false

or_false_left : (a b : Bool) → (a || b) ≡ false → a ≡ false
or_false_left true b h = h
or_false_left false b h = refl

or_false_right : (a b : Bool) → (a || b) ≡ false → b ≡ false
or_false_right true b h = absurd (true≢false h)
or_false_right false b h = h

all-reverse : (p : ℕ → Bool) (s : Text) → all p s ≡ true → all p (reverse s) ≡ true
all-reverse p [] h = refl
all-reverse p (c ∷ s) h = rw (reverse-cons c s) (
    ground (
      arith,
      all-append p (reverse s) (c ∷ []),
      all-reverse p s (and_right (p c) (all p s) h),
      and_left (p c) (all p s) h,
    ))

all-drop_leading :
    (p : ℕ → Bool) (d : ℕ) (s : Text) → all p s ≡ true → all p (drop_leading d s) ≡ true
all-drop_leading p d [] h = refl
all-drop_leading p d (c ∷ s) h =
    ground (arith, all-drop_leading p d s, and_left (p c) (all p s), and_right (p c) (all p s))

clean_char-label : (c : ℕ) → is_label_char (clean_char c) ≡ true
clean_char-label c = elim (Bool-cases (is_label_char c)) [
  | inl e ↦ rw e e
  | inr e ↦ rw e (unfold is_label_char is_ascii_alphanumeric is_ascii_digit in refl)
]

all-clean : (s : Text) → all is_label_char (map clean_char s) ≡ true
all-clean [] = refl
all-clean (c ∷ s) = ground (arith, clean_char-label c, all-clean s)

label_char-no_slash : (c : ℕ) → is_label_char c ≡ true → is_not_slash c ≡ true
label_char-no_slash c h = ap not (
    ==_of_ne c b'/' (λ e. true≢false (
      sym h
      ∙ ap is_label_char e
      ∙ unfold is_label_char is_ascii_alphanumeric is_ascii_digit in refl)))

all-no_slash : (s : Text) → all is_label_char s ≡ true → all is_not_slash s ≡ true
all-no_slash [] h = refl
all-no_slash (c ∷ s) h =
    rw (label_char-no_slash c (and_left (is_label_char c) (all is_label_char s) h))
      (all-no_slash s (and_right (is_label_char c) (all is_label_char s) h))

all-trim_matches :
    (p : ℕ → Bool) (d : ℕ) (s : Text) → all p s ≡ true → all p (trim_matches d s) ≡ true
all-trim_matches p d s h = all-reverse p (drop_leading d (reverse (drop_leading d s))) (
    all-drop_leading p d (reverse (drop_leading d s))
      (all-reverse p (drop_leading d s) (all-drop_leading p d s h)))

abbrev unusable : Text → Bool
unusable s = is_empty s || all (λ c. c == b'.') s

checked-SafeLabel :
    (s : Text) → all is_label_char s ≡ true → SafeLabel (if unusable s then codes "unknown" else s)
checked-SafeLabel s h = elim (Bool-cases (unusable s)) [
  | inl e ↦ rw e record {
    not_empty = refl;
    label_chars = unfold is_label_char is_ascii_alphanumeric is_ascii_digit in refl;
    no_slash = refl;
    not_dots = refl;
  }
  | inr e ↦ rw e record {
    not_empty = or_false_left (is_empty s) (all (λ c. c == b'.') s) e;
    label_chars = h;
    no_slash = all-no_slash s h;
    not_dots = or_false_right (is_empty s) (all (λ c. c == b'.') s) e;
  }
]

sanitize_source-SafeLabel : (s : Text) → SafeLabel (sanitize_source s)
unfolding sanitize_source
sanitize_source-SafeLabel s =
    checked-SafeLabel (trim_matches b'_' (map clean_char s))
      (all-trim_matches is_label_char b'_' (map clean_char s) (all-clean s))

-- Whatever the event and the override are, the source label is not empty, has only letters, digits,
-- `.`, `_` and `-`, hence no slash, and is not made of dots only.
pub derive_source-SafeLabel :
    (e : Event) (override_source : Option Text) → SafeLabel (derive_source e override_source)
unfolding derive_source
derive_source-SafeLabel e override_source = sanitize_source-SafeLabel _
