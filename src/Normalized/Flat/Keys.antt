-- ===== src/Normalized/Flat/Keys.antt =====
-- src/normalized/src/event.rs, `flatten`: the keys that every stored event has, and their order.
use headless_siem.Prelude.{
  ◌≡◌, refl, ap, ◌∙◌, Text, text_lt, true, false, Bool-cases, subst, some, [], ◌∷◌, ◌==◌, nat_eq,
  list_eq, ==_refl, ==_iff, arith, if◌then◌else◌, inl, inr,
}
use headless_siem.Normalized.Flat.{FlatVal, FlatMap, lookup, insert}

pub lookup-insert : (k : Text) (v : FlatVal) (m : FlatMap) → lookup k (insert k v m) ≡ some v
unfolding insert
lookup-insert k v [] = rw (==_refl k) refl
lookup-insert k v ((j, w) ∷ m) = elim (Bool-cases (j == k)) [
  | inl e ↦ rw (e, insert) rw (==_refl k) refl
  | inr e ↦
      rw (e, insert)
        (elim (Bool-cases (text_lt k j)) [
          | inl lt ↦ rw lt rw (==_refl k) refl
          | inr lt ↦ rw lt rw e (lookup-insert k v m)
        ])
]

pub lookup-insert_other :
    (k j : Text) (v : FlatVal) (m : FlatMap)
    → (j == k) ≡ false
    → lookup k (insert j v m) ≡ lookup k m
unfolding insert
lookup-insert_other k j v [] h = rw h refl
lookup-insert_other k j v ((i, w) ∷ m) h = elim (Bool-cases (i == j)) [
  | inl e ↦ rw (e, insert) rw h rw (ap (λ (x : Text). x == k) ((==_iff i j).0 e) ∙ h) refl
  | inr e ↦
      rw (e, insert)
        (elim (Bool-cases (text_lt j i)) [
          | inl lt ↦ rw lt rw h refl
          | inr lt ↦ rw lt (ap (λ r. if i == k then some w else r) (lookup-insert_other k j v m h))
        ])
]

text_lt-total : (s t : Text) → (s == t) ≡ false → text_lt t s ≡ false → text_lt s t ≡ true
unfolding text_lt
text_lt-total [] [] p q = ground (arith, p)
text_lt-total [] (d ∷ t) p q = refl
text_lt-total (c ∷ s) [] p q = ground (arith, q)
text_lt-total (c ∷ s) (d ∷ t) p q = ground (arith, p, q, text_lt-total s t)

-- The keys rise, so that no key occurs twice.
unfoldable pub Below : Text → FlatMap → Type 0
Below k [] = Unit
Below k ((j, v) ∷ m) = text_lt k j ≡ true

unfoldable pub Sorted : FlatMap → Type 0
unfolding Below
Sorted [] = Unit
Sorted ((k, v) ∷ m) = Below k m × Sorted m

insert-Below :
    (i k : Text) (v : FlatVal) (m : FlatMap)
    → text_lt i k ≡ true
    → Below i m
    → Below i (insert k v m)
unfolding insert Below
insert-Below i k v [] lt h = lt
insert-Below i k v ((j, w) ∷ m) lt h = elim (Bool-cases (j == k)) [
  | inl e ↦ rw (e, insert) lt
  | inr e ↦ rw (e, insert) (elim (Bool-cases (text_lt k j)) [ inl l ↦ rw l lt | inr l ↦ rw l h ])
]

pub insert-Sorted : (k : Text) (v : FlatVal) (m : FlatMap) → Sorted m → Sorted (insert k v m)
unfolding insert Sorted
insert-Sorted k v [] h = (unfold Below in tt, tt)
insert-Sorted k v ((j, w) ∷ m) h = elim (Bool-cases (j == k)) [
  | inl e ↦ rw (e, insert) (subst (λ x. Below x m) ((==_iff j k).0 e) h.0, h.1)
  | inr e ↦
      rw (e, insert)
        (elim (Bool-cases (text_lt k j)) [
          | inl lt ↦ rw lt (unfold Below in lt, h)
          | inr lt ↦
              rw lt (insert-Below j k v m (text_lt-total j k e lt) h.0, insert-Sorted k v m h.1)
        ])
]
