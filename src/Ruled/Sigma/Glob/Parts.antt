-- ===== src/Ruled/Sigma/Glob/Parts.antt =====
-- src/ruled/src/rules.rs, `glob_match`: the parts of a pattern between its stars.
use headless_siem.Prelude.{
  ℕ, ap₂, drop, ◌≡◌, refl, sym, ap, ◌∙◌, Text, split, ends_with, Bool, true, false, not, List, [],
  ◌∷◌, ◌++◌, any, all, is_empty, ◌==◌, ==_iff, nat_eq, list_eq, arith, reverse, Bool-cases, inl,
  inr,
}
use mathlib.Core.List.{reverse-append, reverse-reverse}
use headless_siem.Ruled.Sigma.Glob.Suffixes.{starts_with-some}

-- The parts of a pattern, joined again.
unfoldable pub join : List Text → Text
join [] = []
join (a ∷ []) = a
join (a ∷ b ∷ l) = a ++ b'*' ∷ join (b ∷ l)

-- The last of the later parts.
unfoldable pub last_part : List Text → Text
last_part [] = []
last_part (a ∷ []) = a
last_part (a ∷ b ∷ l) = last_part (b ∷ l)

abbrev pub no_star : Text → Bool
no_star s = all (λ c. not (c == b'*')) s

-- What `split('*')` gives.
abbrev Parts : Text → Type 0
Parts p =
    (a : Text) × (l : List Text) × (split b'*' p ≡ a ∷ l)
    × (join (a ∷ l) ≡ p)
    × (all no_star (a ∷ l) ≡ true)

join-cons : (c : ℕ) (a : Text) (l : List Text) → join ((c ∷ a) ∷ l) ≡ c ∷ join (a ∷ l)
unfolding join
join-cons c a [] = refl
join-cons c a (b ∷ l) = refl

pub split-Parts : (p : Text) → Parts p
unfolding split join
split-Parts [] = ([], [], refl, refl, refl)
split-Parts (c ∷ p) =
    let (a, l, e, j, n) = split-Parts p in
    elim (Bool-cases (c == b'*')) [
      | inl h ↦ (
        [],
        a ∷ l,
        rw h (ap (λ (r : List Text). [] ∷ r) e),
        ap₂ (λ (x : ℕ) (r : Text). x ∷ r) (sym ((==_iff c b'*').0 h)) j,
        n,
      )
      | inr h ↦ (
        c ∷ a,
        l,
        rw h (rw e refl),
        join-cons c a l ∙ ap (λ (r : Text). c ∷ r) j,
        ground (arith, h, n),
      )
    ]

-- A pattern that ends with `*` has an empty last part, behind another.
split-last :
    (u : Text)
    → (a : Text) × (b : Text) × (l : List Text) × (split b'*' (u ++ b'*' ∷ []) ≡ a ∷ b ∷ l)
      × (is_empty (last_part (b ∷ l)) ≡ true)
unfolding split last_part
split-last [] = ([], [], [], refl, refl)
split-last (c ∷ u) =
    let (a, b, l, e, n) = split-last u in
    elim (Bool-cases (c == b'*')) [
      | inl h ↦ ([], a, b ∷ l, rw h (ap (λ (r : List Text). [] ∷ r) e), n)
      | inr h ↦ (c ∷ a, b, l, rw h (rw e refl), n)
    ]

pub no_star-any : (s : Text) → no_star s ≡ true → any (λ c. c == b'*') s ≡ false
no_star-any [] h = refl
no_star-any (c ∷ s) h = ground (arith, h, no_star-any s)

pub any-no_star : (s : Text) → any (λ c. c == b'*') s ≡ false → no_star s ≡ true
any-no_star [] h = refl
any-no_star (c ∷ s) h = ground (arith, h, any-no_star s)

last_of_later : List Text → Bool
last_of_later parts = is_empty (last_part (drop 1 parts))

pub last-star :
    (p a b : Text) (l : List Text)
    → split b'*' p ≡ a ∷ b ∷ l
    → ends_with p (b'*' ∷ []) ≡ true
    → is_empty (last_part (b ∷ l)) ≡ true
unfolding last_of_later
last-star p a b l e h =
    let (t, f) = starts_with-some (reverse p) (b'*' ∷ []) h in
    let whole = sym (reverse-reverse p) ∙ ap reverse f ∙ reverse-append (b'*' ∷ []) t in
    let (a', b', l', e', n) = split-last (reverse t) in
    ap last_of_later (sym e ∙ ap (split b'*') whole ∙ e') ∙ n
