-- ===== src/Ruled/Sigma/Glob/Meaning.antt =====
-- src/ruled/src/rules.rs, `glob_match`, against the meaning of a pattern read character by character.
use headless_siem.Prelude.{
  ℕ, and_left, and_right, ◌&&◌, ◌≡◌, refl, sym, ap, ◌∙◌, Text, split, strip_prefix, ends_with, Bool,
  true, false, not, Option, none, some, List, [], ◌∷◌, ◌++◌, any, all, is_empty, ◌==◌, ==_iff,
  nat_eq, list_eq, if◌then◌else◌, arith, Bool-cases, inl, inr,
}
use mathlib.Core.Bool.{true≢false}
use headless_siem.Ruled.Sigma.Glob.{glob_match, match_first, match_later, after_first}
use headless_siem.Ruled.Sigma.Glob.Suffixes.{
  some_suffix, then_suffix, some_suffix-part, ends_with-some_suffix, some_suffix-same,
  some_suffix-is_empty, after_first-nil,
}
use headless_siem.Ruled.Sigma.Glob.Parts.{
  join, last_part, no_star, split-Parts, no_star-any, any-no_star, last-star,
}

abbrev at_head : ℕ → (Text → Bool) → Text → Bool
at_head c f [] = false
at_head c f (d ∷ s) = d == c && f s

-- The meaning of a pattern: `*` stands for any text, any other character for itself.
unfoldable pub fits : Text → Text → Bool
unfolding some_suffix
fits [] s = is_empty s
fits (c ∷ p) s = if c == b'*' then some_suffix (fits p) s else at_head c (fits p) s

fits-part :
    (part p s : Text)
    → all (λ c. not (c == b'*')) part ≡ true
    → fits (part ++ p) s ≡ elim (strip_prefix s part) [ none ↦ false | some r ↦ fits p r ]
unfolding fits
fits-part [] p s h = refl
fits-part (c ∷ part) p [] h = ground (arith, h)
fits-part (c ∷ part) p (d ∷ s) h = ground (arith, h, fits-part part p s)

fits-literal : (part s : Text) → no_star part ≡ true → fits part s ≡ (part == s)
unfolding fits
fits-literal [] [] h = refl
fits-literal [] (d ∷ s) h = refl
fits-literal (c ∷ part) [] h = ground (arith, h)
fits-literal (c ∷ part) (d ∷ s) h = ground (arith, h, fits-literal part s)

fits-star :
    (part p s : Text)
    → no_star part ≡ true
    → fits (part ++ b'*' ∷ p) s ≡ then_suffix (fits p) part s
unfolding fits
fits-star part p s h = fits-part part (b'*' ∷ p) s h

some_suffix-fits_nil : (s : Text) → some_suffix (fits []) s ≡ true
unfolding fits
some_suffix-fits_nil s = some_suffix-is_empty s

some_suffix-join :
    (a p s : Text)
    → no_star a ≡ true
    → some_suffix (fits (a ++ b'*' ∷ p)) s
      ≡ elim (after_first a s) [ none ↦ false | some r ↦ some_suffix (fits p) r ]
some_suffix-join a p s h =
    some_suffix-same (fits (a ++ b'*' ∷ p)) (then_suffix (fits p) a) s (λ t. fits-star a p t h)
    ∙ some_suffix-part (fits p) a s

found-same :
    (f g : Text → Bool) (o : Option Text)
    → ((r : Text) → f r ≡ g r)
    → (elim o [ none ↦ false | some r ↦ f r ]) ≡ (elim o [ none ↦ false | some r ↦ g r ])
found-same f g none h = refl
found-same f g (some r) h = h r

match_later-fits :
    (open_end : Bool) (a : Text) (l : List Text) (s : Text)
    → all no_star (a ∷ l) ≡ true
    → (open_end ≡ true → is_empty (last_part (a ∷ l)) ≡ true)
    → match_later open_end (a ∷ l) s ≡ some_suffix (fits (join (a ∷ l))) s
unfolding match_later join last_part
match_later-fits open_end [] [] s h o = sym (some_suffix-fits_nil s)
match_later-fits true (c ∷ a) [] s h o = absurd (true≢false (sym (o refl)))
match_later-fits false (c ∷ a) [] s h o =
    ends_with-some_suffix s (c ∷ a)
    ∙ sym (
        some_suffix-same (fits (c ∷ a)) (λ t. (c ∷ a) == t) s
          (λ t. fits-literal (c ∷ a) t (and_left (no_star (c ∷ a)) true h)))
match_later-fits open_end [] (b ∷ l) s h o =
    match_later-fits open_end b l s h o
    ∙ sym (
        some_suffix-join [] (join (b ∷ l)) s refl
        ∙ ap
            (λ (o : Option Text). elim o [
              | none ↦ false
              | some r ↦ some_suffix (fits (join (b ∷ l))) r
            ])
            (after_first-nil s))
match_later-fits open_end (c ∷ a) (b ∷ l) s h o =
    found-same (match_later open_end (b ∷ l)) (some_suffix (fits (join (b ∷ l))))
      (after_first (c ∷ a) s)
      (λ r. match_later-fits open_end b l r (and_right (no_star (c ∷ a)) (all no_star (b ∷ l)) h) o)
    ∙ sym (
        some_suffix-join (c ∷ a) (join (b ∷ l)) s
          (and_left (no_star (c ∷ a)) (all no_star (b ∷ l)) h))

match_first-fits :
    (open_end : Bool) (a b : Text) (l : List Text) (s : Text)
    → all no_star (a ∷ b ∷ l) ≡ true
    → (open_end ≡ true → is_empty (last_part (b ∷ l)) ≡ true)
    → match_first open_end (a ∷ b ∷ l) s ≡ fits (join (a ∷ b ∷ l)) s
unfolding join fits
match_first-fits open_end [] b l s h o = match_later-fits open_end b l s h o
match_first-fits open_end (c ∷ a) b l s h o =
    found-same (match_later open_end (b ∷ l)) (some_suffix (fits (join (b ∷ l))))
      (strip_prefix s (c ∷ a))
      (λ r. match_later-fits open_end b l r (and_right (no_star (c ∷ a)) (all no_star (b ∷ l)) h) o)
    ∙ sym (fits-star (c ∷ a) (join (b ∷ l)) s (and_left (no_star (c ∷ a)) (all no_star (b ∷ l)) h))

fits-anything : (s : Text) → fits (b'*' ∷ []) s ≡ true
unfolding fits
fits-anything s = some_suffix-is_empty s

-- A pattern with a `*`, by its parts.
parts-fits :
    (p s : Text)
    → any (λ c. c == b'*') p ≡ true
    → match_first (ends_with p (b'*' ∷ [])) (split b'*' p) s ≡ fits p s
unfolding join
parts-fits p s star = let (a, l, e, j, n) = split-Parts p in go a l e j n
  where
    go :
        (a : Text) (l : List Text)
        → split b'*' p ≡ a ∷ l
        → join (a ∷ l) ≡ p
        → all no_star (a ∷ l) ≡ true
        → match_first (ends_with p (b'*' ∷ [])) (split b'*' p) s ≡ fits p s
    go a [] e j n = absurd (
        true≢false (
          sym star
          ∙ ap (any (λ c. c == b'*')) (sym j)
          ∙ no_star-any a (and_left (no_star a) true n)))
    go a (b ∷ l) e j n =
        ap (λ parts. match_first (ends_with p (b'*' ∷ [])) parts s) e
        ∙ match_first-fits (ends_with p (b'*' ∷ [])) a b l s n (last-star p a b l e)
        ∙ ap (λ (q : Text). fits q s) j

-- On every pattern and name, `glob_match` is the meaning of the pattern: a `*` of it stands for
-- any text, every other character for itself.
pub glob_match-fits : (pattern name : Text) → glob_match pattern name ≡ fits pattern name
unfolding glob_match
glob_match-fits p s = elim (Bool-cases (p == b'*' ∷ [])) [
  | inl h ↦ rw h (sym (ap (λ (q : Text). fits q s) ((==_iff p (b'*' ∷ [])).0 h) ∙ fits-anything s))
  | inr h ↦ elim (Bool-cases (any (λ c. c == b'*') p)) [
    | inl star ↦ rw h (rw star (parts-fits p s star))
    | inr plain ↦ rw h (rw plain (sym (fits-literal p s (any-no_star p plain))))
  ]
]
