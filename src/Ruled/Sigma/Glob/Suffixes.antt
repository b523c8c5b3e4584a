-- ===== src/Ruled/Sigma/Glob/Suffixes.antt =====
-- src/ruled/src/rules.rs, `glob_match`: suffixes, the first occurrence of a part, and `ends_with`.
use headless_siem.Prelude.{
  ℕ, ◌||◌, length-append, ==_refl, ap₂, and_left, and_right, drop, ◌≤◌, ◌≡◌, refl, sym, ap, ◌∙◌,
  Text, strip_prefix, starts_with, ends_with, Bool, true, false, Option, none, some, [], ◌∷◌, ◌++◌,
  length, is_empty, ◌==◌, ==_iff, nat_eq, list_eq, arith, reverse, append_assoc, Option-cases,
  Bool-cases, inl, inr,
}
use mathlib.Core.List.{reverse-append, reverse-reverse}
use headless_siem.Ruled.Sigma.Glob.{after_first}

-- Whether a test holds on some suffix.
unfoldable pub some_suffix : (Text → Bool) → Text → Bool
some_suffix f [] = f []
some_suffix f (c ∷ s) = f (c ∷ s) || some_suffix f s

abbrev Ends : Text → Text → Type 0
Ends s v = (u : Text) × (s ≡ u ++ v)

-- `some_suffix` as a statement.
some_suffix-found :
    (f : Text → Bool) (s : Text) → some_suffix f s ≡ true → (v : Text) × Ends s v × (f v ≡ true)
unfolding some_suffix
some_suffix-found f [] h = ([], ([], refl), h)
some_suffix-found f (c ∷ s) h = elim (Bool-cases (f (c ∷ s))) [
  | inl e ↦ (c ∷ s, ([], refl), e)
  | inr e ↦
      let r = some_suffix-found f s (ground (arith, h, e)) in
      (r.0, (c ∷ r.1.0, ap (λ (t : Text). c ∷ t) r.1.1), r.2)
]

some_suffix-head : (f : Text → Bool) (s : Text) → f s ≡ true → some_suffix f s ≡ true
unfolding some_suffix
some_suffix-head f [] h = h
some_suffix-head f (c ∷ s) h = ground (arith, h)

some_suffix-further :
    (f : Text → Bool) (u v : Text) → some_suffix f v ≡ true → some_suffix f (u ++ v) ≡ true
unfolding some_suffix
some_suffix-further f [] v h = h
some_suffix-further f (c ∷ u) v h = ground (arith, some_suffix-further f u v h)

-- Two Boolean values that imply each other.
same_truth : (a b : Bool) → (a ≡ true → b ≡ true) → (b ≡ true → a ≡ true) → a ≡ b
same_truth a b f g = ground (arith, f, g)

strip_prefix-some : (s p r : Text) → strip_prefix s p ≡ some r → s ≡ p ++ r
strip_prefix-some s [] r h = ground (arith, h)
strip_prefix-some [] (c ∷ p) r h = ground (arith, h)
strip_prefix-some (d ∷ s) (c ∷ p) r h = ground (arith, h, strip_prefix-some s p r)

strip_prefix-append : (p r : Text) → strip_prefix (p ++ r) p ≡ some r
strip_prefix-append [] r = refl
strip_prefix-append (c ∷ p) r = ground (arith, strip_prefix-append p r)

-- Of two splits of one text, the one that takes less leaves more.
shorter_front : (a rest b r : Text) → a ++ rest ≡ b ++ r → length a ≤ length b → Ends rest r
shorter_front [] rest b r e le = (b, e)
shorter_front (x ∷ a) rest [] r e le = absurd (omega (arith, le))
shorter_front (x ∷ a) rest (y ∷ b) r e le =
    shorter_front a rest b r (ap (drop 1) e) (omega (arith, le))

abbrev pub then_suffix : (Text → Bool) → Text → Text → Bool
then_suffix f part t = elim (strip_prefix t part) [ none ↦ false | some r ↦ some_suffix f r ]

absorb : (a b : Bool) → (b ≡ true → a ≡ true) → (a || b) ≡ a
absorb a b h = ground (arith, h)

then_suffix-found :
    (f : Text → Bool) (part t : Text)
    → then_suffix f part t ≡ true
    → (r : Text) × (t ≡ part ++ r) × (some_suffix f r ≡ true)
then_suffix-found f part t h = elim (Option-cases (strip_prefix t part)) [
  | inl e ↦ absurd (ground (arith, h, e))
  | inr e ↦ (
    e.0,
    strip_prefix-some t part e.0 e.1,
    ap (λ (o : Option Text). elim o [ none ↦ false | some r ↦ some_suffix f r ]) (sym e.1) ∙ h,
  )
]

later-found :
    (f : Text → Bool) (part s rest : Text) (c : ℕ)
    → strip_prefix (c ∷ s) part ≡ some rest
    → some_suffix (then_suffix f part) s ≡ true
    → some_suffix f rest ≡ true
later-found f part s rest c e h =
    let (v, w, hv) = some_suffix-found (then_suffix f part) s h in
    let (r, er, hr) = then_suffix-found f part v hv in
    let whole =
      sym (strip_prefix-some (c ∷ s) part rest e)
      ∙ ap (λ (t : Text). c ∷ t) (w.1 ∙ ap (λ (t : Text). w.0 ++ t) er)
      ∙ sym (append_assoc (c ∷ w.0) part r) in
    let x =
      shorter_front part rest (c ∷ w.0 ++ part) r whole
        (omega (arith, length-append (c ∷ w.0) part)) in
    ap (some_suffix f) x.1 ∙ some_suffix-further f x.0 r hr

-- A part is found at its first occurrence, and nothing that a later one leaves is lost.
pub some_suffix-part :
    (f : Text → Bool) (part s : Text)
    → some_suffix (then_suffix f part) s
      ≡ elim (after_first part s) [ none ↦ false | some r ↦ some_suffix f r ]
unfolding some_suffix after_first
some_suffix-part f part [] = refl
some_suffix-part f part (c ∷ s) = elim (Option-cases (strip_prefix (c ∷ s) part)) [
  | inl e ↦
      ap
        (λ (o : Option Text).
          elim o [ none ↦ false | some r ↦ some_suffix f r ] || some_suffix (then_suffix f part) s)
        e
      ∙ some_suffix-part f part s
      ∙ sym (rw e refl)
  | inr e ↦
      ap
        (λ (o : Option Text).
          elim o [ none ↦ false | some r ↦ some_suffix f r ] || some_suffix (then_suffix f part) s)
        (e.1)
      ∙ absorb (some_suffix f e.0) (some_suffix (then_suffix f part) s)
          (later-found f part s e.0 c e.1)
      ∙ sym (rw (e.1) refl)
]

pub starts_with-some : (s p : Text) → starts_with s p ≡ true → (t : Text) × (s ≡ p ++ t)
starts_with-some s [] h = (s, refl)
starts_with-some [] (c ∷ p) h = absurd (ground (arith, h))
starts_with-some (d ∷ s) (c ∷ p) h =
    let r = starts_with-some s p (and_right (d == c) (starts_with s p) h) in
    let e = (==_iff d c).0 (and_left (d == c) (starts_with s p) h) in
    (r.0, ap₂ (λ (x : ℕ) (t : Text). x ∷ t) e r.1)

starts_with-append : (p t : Text) → starts_with (p ++ t) p ≡ true
starts_with-append [] t = refl
starts_with-append (c ∷ p) t = ground (arith, starts_with-append p t)

pub ends_with-some_suffix : (s part : Text) → ends_with s part ≡ some_suffix (λ t. part == t) s
ends_with-some_suffix s part = same_truth _ _ there back
  where
    there : ends_with s part ≡ true → some_suffix (λ t. part == t) s ≡ true
    there h =
        let (t, e) = starts_with-some (reverse s) (reverse part) h in
        let whole =
          sym (reverse-reverse s)
          ∙ ap reverse e
          ∙ reverse-append (reverse part) t
          ∙ ap (λ (x : Text). reverse t ++ x) (reverse-reverse part) in
        ap (some_suffix (λ t. part == t)) whole
        ∙ some_suffix-further (λ t. part == t) (reverse t) part
            (some_suffix-head (λ t. part == t) part (==_refl part))

    back : some_suffix (λ t. part == t) s ≡ true → ends_with s part ≡ true
    back h =
        let (v, w, hv) = some_suffix-found (λ t. part == t) s h in
        let whole = w.1 ∙ ap (λ (x : Text). w.0 ++ x) (sym ((==_iff part v).0 hv)) in
        ap (λ x. starts_with x (reverse part)) (ap reverse whole ∙ reverse-append w.0 part)
        ∙ starts_with-append (reverse part) (reverse w.0)

pub some_suffix-same :
    (f g : Text → Bool) (s : Text) → ((t : Text) → f t ≡ g t) → some_suffix f s ≡ some_suffix g s
unfolding some_suffix
some_suffix-same f g [] h = h []
some_suffix-same f g (c ∷ s) h = ap₂ (λ (a b : Bool). a || b) (h (c ∷ s)) (some_suffix-same f g s h)

pub some_suffix-is_empty : (s : Text) → some_suffix is_empty s ≡ true
unfolding some_suffix
some_suffix-is_empty [] = refl
some_suffix-is_empty (c ∷ s) = some_suffix-is_empty s

pub after_first-nil : (s : Text) → after_first [] s ≡ some s
unfolding after_first
after_first-nil [] = refl
after_first-nil (c ∷ s) = refl
