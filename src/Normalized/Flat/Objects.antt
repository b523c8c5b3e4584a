-- ===== src/Normalized/Flat/Objects.antt =====
-- src/normalized/src/event.rs, `serialize_flat`: the line of an event is read back to its flat map.
use headless_siem.Prelude.{
  ℕ, zero, suc, ◌≤◌, ◌<◌, ◌≡◌, refl, ap, ◌∙◌, Text, codes, true, false, ◌&&◌, Option, none, some,
  [], ◌∷◌, ◌++◌, append_assoc, length, is_empty, ◌==◌, nat_eq, list_eq, arith, if◌then◌else◌,
  strip_prefix,
}
use headless_siem.Prelude.Options.{◌>>=◌}
use headless_siem.Normalized.Flat.{
  FlatVal, text, boolean, FlatMap, escape, json_string, value_text, pair_text, pairs_text,
  serialize_flat,
}
use headless_siem.Normalized.Flat.Reading.{plainly, read_chars, read_chars-escape}

abbrev as_text : Text × Text → Option (FlatVal × Text)
as_text (s, rest) = some (text s, rest)

read_word : Text → Option (FlatVal × Text)
read_word s = elim (strip_prefix s (codes "true")) [
  | some rest ↦ some (boolean true, rest)
  | none ↦ elim (strip_prefix s (codes "false")) [
    | some rest ↦ some (boolean false, rest)
    | none ↦ none
  ]
]

read_value : Text → Option (FlatVal × Text)
unfolding read_word
read_value [] = none
read_value (c ∷ s) = elim (c == 34) [
  | true ↦ read_chars plainly s >>= as_text
  | false ↦ read_word (c ∷ s)
]

abbrev behind_colon : Text × Text → Option (Text × Text)
behind_colon (k, []) = none
behind_colon (k, c ∷ s) = if c == b':' then some (k, s) else none

read_key : Text → Option (Text × Text)
read_key [] = none
read_key (c ∷ s) = elim (c == 34) [ true ↦ read_chars plainly s >>= behind_colon | false ↦ none ]

-- Behind a member: a comma with more members, or the closing brace at the end.
abbrev behind_member : Text × FlatVal → Text → (Text → Option FlatMap) → Option FlatMap
behind_member p [] more = none
behind_member p (c ∷ s) more = elim (c == b',') [
  | true ↦ more s >>= λ m. some (p ∷ m)
  | false ↦ if c == b'}' && is_empty s then some (p ∷ []) else none
]

read_members : ℕ → Text → Option FlatMap
unfolding read_key read_value
read_members zero s = none
read_members (suc fuel) s =
    read_key s >>= λ k. read_value k.1 >>= λ v. behind_member (k.0, v.0) v.1 (read_members fuel)

-- An object of at most `fuel` members.
unfoldable pub read_object : ℕ → Text → Option FlatMap
unfolding read_members
read_object fuel [] = none
read_object fuel (c ∷ s) = elim (c == b'{') [
  | true ↦ if s == codes "}" then some [] else read_members fuel s
  | false ↦ none
]

read_value-text : (v : FlatVal) (rest : Text) → read_value (value_text v ++ rest) ≡ some (v, rest)
unfolding read_value read_word json_string
read_value-text (text s) rest =
    ap (λ t. read_chars plainly t >>= as_text) (append_assoc (escape s) (34 ∷ []) rest)
    ∙ ap (λ r. r >>= as_text) (read_chars-escape s rest)
read_value-text (boolean true) rest = refl
read_value-text (boolean false) rest = refl

read_key-json_string :
    (k rest : Text) → read_key (json_string k ++ codes ":" ++ rest) ≡ some (k, rest)
unfolding read_key json_string
read_key-json_string k rest =
    ap (λ t. read_chars plainly t >>= behind_colon)
      (append_assoc (escape k ++ 34 ∷ []) (codes ":") rest
        ∙ append_assoc (escape k) (34 ∷ []) (codes ":" ++ rest))
    ∙ ap (λ r. r >>= behind_colon) (read_chars-escape k (codes ":" ++ rest))

read_members-pair_text :
    (fuel : ℕ) (k : Text) (v : FlatVal) (rest : Text)
    → read_members (suc fuel) (pair_text (k, v) ++ rest)
      ≡ behind_member (k, v) rest (read_members fuel)
unfolding read_members pair_text
read_members-pair_text fuel k v rest =
    let next = λ (k' : Text × Text).
      read_value k'.1 >>= λ v'. behind_member (k'.0, v'.0) v'.1 (read_members fuel) in
    ap (λ t. read_key t >>= next) (append_assoc (json_string k ++ codes ":") (value_text v) rest)
    ∙ ap (λ r. r >>= next) (read_key-json_string k (value_text v ++ rest))
    ∙ ap (λ r. r >>= λ v'. behind_member (k, v'.0) v'.1 (read_members fuel))
        (read_value-text v rest)

read_members-pairs_text :
    (fuel : ℕ) (p : Text × FlatVal) (m : FlatMap)
    → length m < fuel
    → read_members fuel (pairs_text (p ∷ m) ++ codes "}") ≡ some (p ∷ m)
unfolding pairs_text
read_members-pairs_text zero p m lt = absurd (omega arith)
read_members-pairs_text (suc fuel) (k, v) [] lt = read_members-pair_text fuel k v (codes "}")
read_members-pairs_text (suc fuel) (k, v) (q ∷ m) lt =
    ap (read_members (suc fuel)) (
      append_assoc (pair_text (k, v) ++ codes ",") (pairs_text (q ∷ m)) (codes "}")
      ∙ append_assoc (pair_text (k, v)) (codes ",") (pairs_text (q ∷ m) ++ codes "}"))
    ∙ read_members-pair_text fuel k v (codes "," ++ (pairs_text (q ∷ m) ++ codes "}"))
    ∙ ap (λ r. r >>= λ n. some ((k, v) ∷ n)) (read_members-pairs_text fuel q m (omega (arith, lt)))

not_empty_object :
    (p : Text × FlatVal) (m : FlatMap) → (pairs_text (p ∷ m) ++ codes "}" == codes "}") ≡ false
unfolding pairs_text pair_text json_string
not_empty_object (k, v) [] = refl
not_empty_object (k, v) (q ∷ m) = refl

-- The line that `normalized` stores for a flat map, whatever texts it holds, is JSON: a reader that
-- follows the grammar of flat objects reads the same members back, in the same order.
pub read_object-serialize_flat :
    (fuel : ℕ) (m : FlatMap) → length m ≤ fuel → read_object (suc fuel) (serialize_flat m) ≡ some m
unfolding read_object serialize_flat
read_object-serialize_flat fuel [] le = unfold pairs_text in refl
read_object-serialize_flat fuel (p ∷ m) le =
    rw (not_empty_object p m) (read_members-pairs_text (suc fuel) p m (omega (arith, le)))
