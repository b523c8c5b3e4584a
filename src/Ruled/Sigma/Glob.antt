-- ===== src/Ruled/Sigma/Glob.antt =====
-- src/ruled/src/rules.rs, `glob_match`: `*` in the pattern stands for any text.
pub mod Suffixes
pub mod Parts
pub mod Meaning
use headless_siem.Prelude.{
  Text, split, strip_prefix, ends_with, Bool, true, false, not, Option, none, some, List, [], ◌∷◌,
  any, is_empty, ◌==◌, nat_eq, list_eq, if◌then◌else◌,
}

-- `&remaining[find(part) + part.len()..]`: what follows the first occurrence of a part.
unfoldable pub after_first : Text → Text → Option Text
after_first part [] = strip_prefix [] part
after_first part (c ∷ s) =
    let later = after_first part s in
    elim (strip_prefix (c ∷ s) part) [ some rest ↦ some rest | none ↦ later ]

-- The parts behind the first one. The last part, if the pattern does not end with `*`, has to
-- match at the end; any other is found and skipped.
unfoldable pub match_later : Bool → List Text → Text → Bool
match_later open_end [] remaining = true
match_later open_end (part ∷ []) remaining =
    if is_empty part
    then true
    else if not open_end
    then ends_with remaining part
    else elim (after_first part remaining) [ none ↦ false | some rest ↦ true ]
match_later open_end (part ∷ next ∷ parts) remaining =
    let skipped = match_later open_end (next ∷ parts) remaining in
    if is_empty part then skipped else elim (after_first part remaining) [
      | none ↦ false
      | some rest ↦ match_later open_end (next ∷ parts) rest
    ]

abbrev match_first : Bool → List Text → Text → Bool
match_first open_end [] remaining = true
match_first open_end (part ∷ parts) remaining =
    if is_empty part
    then match_later open_end parts remaining
    else elim (strip_prefix remaining part) [
      | none ↦ false
      | some rest ↦ match_later open_end parts rest
    ]

unfoldable pub glob_match : Text → Text → Bool
unfolding match_later after_first
glob_match pattern name =
    if pattern == b'*' ∷ []
    then true
    else if not (any (λ c. c == b'*') pattern)
    then pattern == name
    else match_first (ends_with pattern (b'*' ∷ [])) (split b'*' pattern) name
