-- ===== src/Normalized/Flat/Flatten.antt =====
-- src/normalized/src/event.rs, `flatten`: what holds of the stored form of every event.
use headless_siem.Prelude.{
  ℕ, ◌≡◌, refl, ap, ◌∙◌, Text, codes, trim, Bool, true, Option, none, some, List, [], ◌∷◌, ◌++◌,
  ◌==◌, nat_eq, list_eq, not, all, take, drop, arith, and_left, and_right,
}
use headless_siem.Bytes.{from_utf8}
use headless_siem.Normalized.Event.{Event, not_blank}
use headless_siem.Normalized.Flat.{
  text, FlatVal, FlatMap, lookup, insert, insert_plain, insert_synonyms, insert_all, insert_some,
  envelope, or_insert, or_received, synonym_target, flatten,
}
use headless_siem.Normalized.Flat.Keys.{Sorted, insert-Sorted, lookup-insert, lookup-insert_other}

or_insert-Sorted : (k : Text) (v : FlatVal) (m : FlatMap) → Sorted m → Sorted (or_insert k v m)
or_insert-Sorted k v m h =
    elim (lookup k m) as (λ r. Sorted (elim r [ some w ↦ m | none ↦ insert k v m ])) [
      | some w ↦ h
      | none ↦ insert-Sorted k v m h
    ]

insert_all-Sorted :
    (entries : List (Text × Option FlatVal)) (m : FlatMap)
    → Sorted m
    → Sorted (insert_all entries m)
unfolding insert_all
insert_all-Sorted [] m h = h
insert_all-Sorted ((k, none) ∷ entries) m h = insert_all-Sorted entries m h
insert_all-Sorted ((k, some v) ∷ entries) m h =
    insert_all-Sorted entries (insert k v m) (insert-Sorted k v m h)

abbrev differs : Text → Text × Option FlatVal → Bool
differs k (j, v) = not (j == k)

insert_all-other :
    (k : Text) (entries : List (Text × Option FlatVal)) (m : FlatMap)
    → all (differs k) entries ≡ true
    → lookup k (insert_all entries m) ≡ lookup k m
unfolding insert_all
insert_all-other k [] m h = refl
insert_all-other k ((j, none) ∷ entries) m h =
    insert_all-other k entries m (and_right (not (j == k)) (all (differs k) entries) h)
insert_all-other k ((j, some v) ∷ entries) m h =
    insert_all-other k entries (insert j v m) (and_right (not (j == k)) (all (differs k) entries) h)
    ∙ lookup-insert_other k j v m
        (ground (arith, and_left (not (j == k)) (all (differs k) entries) h))

-- A key that nothing behind it writes again.
insert_all-lookup :
    (k : Text) (v : FlatVal) (before behind : List (Text × Option FlatVal)) (m : FlatMap)
    → all (differs k) behind ≡ true
    → lookup k (insert_all (before ++ (k, some v) ∷ behind) m) ≡ some v
unfolding insert_all
insert_all-lookup k v [] behind m h =
    insert_all-other k behind (insert k v m) h ∙ lookup-insert k v m
insert_all-lookup k v ((j, w) ∷ before) behind m h =
    insert_all-lookup k v before behind (insert_some j w m) h

insert_plain-Sorted :
    (fs : List (Text × Text)) (m : FlatMap) → Sorted m → Sorted (insert_plain fs m)
unfolding insert_plain
insert_plain-Sorted [] m h = h
insert_plain-Sorted ((k, v) ∷ fs) m h =
    insert_plain-Sorted fs
      (elim (synonym_target k) [ none ↦ insert k (text v) m | some target ↦ m ])
      (elim (synonym_target k)
        as (λ r. Sorted (elim r [ none ↦ insert k (text v) m | some target ↦ m ])) [
          | none ↦ insert-Sorted k (text v) m h
          | some target ↦ h
        ])

insert_synonyms-Sorted :
    (fs : List (Text × Text)) (m : FlatMap) → Sorted m → Sorted (insert_synonyms fs m)
unfolding insert_synonyms
insert_synonyms-Sorted [] m h = h
insert_synonyms-Sorted ((k, v) ∷ fs) m h =
    insert_synonyms-Sorted fs
      (elim (synonym_target k) [ none ↦ m | some target ↦ or_insert target (text v) m ])
      (elim (synonym_target k)
        as (λ r. Sorted (elim r [ none ↦ m | some target ↦ or_insert target (text v) m ])) [
          | none ↦ h
          | some target ↦ or_insert-Sorted target (text v) m h
        ])

-- The structured fields, before the envelope.
abbrev structured : Event → FlatMap
structured e = insert_synonyms e.fields (insert_plain e.fields [])

-- The text of some bytes that are UTF-8, and else another text.
abbrev pub decoded : Option Text → Text → Text
decoded (some s) other = s
decoded none other = other

decoded-lossy :
    (r : Option Text) (other : Text)
    → ((s : Text) → r ≡ some s → other ≡ s)
    → other ≡ decoded r other
decoded-lossy (some s) other h = h s refl
decoded-lossy none other h = refl

module _ (from_utf8_lossy : List ℕ → Text)
    (lossy : (bytes : List ℕ) (s : Text) → from_utf8 bytes ≡ some s → from_utf8_lossy bytes ≡ s)
    (e : Event) (source received_iso : Text) where
  -- Let the lossy decoding give the text of all bytes that are UTF-8. The keys of the flat map of
  -- every event rise, so that none occurs twice; its `timestamp` is the event's own or else the time
  -- of receipt, its `_source_type` is the source label, and its `_raw` is the text of the raw bytes,
  -- without the blanks around it, or, if they are not UTF-8, that of their lossy decoding.
  pub flatten-Sorted :
      Sorted (flatten from_utf8_lossy e source received_iso)
      × (lookup (codes "timestamp") (flatten from_utf8_lossy e source received_iso)
          ≡ some (text (or_received received_iso (not_blank e.timestamp))))
      × (lookup (codes "_source_type") (flatten from_utf8_lossy e source received_iso)
          ≡ some (text source))
      × (lookup (codes "_raw") (flatten from_utf8_lossy e source received_iso)
          ≡ some (text (trim (decoded (from_utf8 e.raw) (from_utf8_lossy e.raw)))))
  unfolding flatten
  flatten-Sorted =
      let entries = envelope from_utf8_lossy e source received_iso in
      let m = structured e in
      let raw = from_utf8_lossy e.raw in
      (
        insert_all-Sorted entries m (
            insert_synonyms-Sorted e.fields (insert_plain e.fields [])
              (insert_plain-Sorted e.fields [] (unfold Sorted in tt))),
        insert_all-lookup (codes "timestamp")
            (text (or_received received_iso (not_blank e.timestamp))) [] (drop 1 entries) m refl,
        insert_all-lookup (codes "_source_type") (text source) (take 2 entries) (drop 3 entries) m
            refl,
        insert_all-lookup (codes "_raw") (text (trim raw)) (take 13 entries) [] m refl
            ∙ ap (λ s. some (text (trim s))) (decoded-lossy (from_utf8 e.raw) raw (lossy e.raw)),
      )
