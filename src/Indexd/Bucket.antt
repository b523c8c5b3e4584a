-- ===== src/Indexd/Bucket.antt =====
-- src/indexd/src/db.rs, `derive_bucket`: the hour of a stored file, by its path.
use headless_siem.Prelude.{
  ℕ, Text, codes, split, is_ascii_digit, Bool, ◌&&◌, ◌||◌, Option, none, some, List, [], ◌∷◌, ◌++◌,
  all, length, reverse, is_empty, ◌==◌, nat_eq, list_eq, if◌then◌else◌,
}

-- Empty parts and the parts `.` behind the first are no components.
unfoldable pub inner_components : List Text → List Text
inner_components [] = []
inner_components (s ∷ rest) =
    let later = inner_components rest in if is_empty s || s == codes "." then later else s ∷ later

-- The first part is empty in an absolute path, whose first component is the root.
abbrev pub path_components : List Text → List Text
path_components [] = []
path_components (s ∷ []) = if is_empty s then [] else s ∷ []
path_components (s ∷ t ∷ rest) = (if is_empty s then codes "/" else s) ∷ inner_components (t ∷ rest)

-- `Path::components`
unfoldable pub components : Text → List Text
unfolding inner_components
components path = path_components (split b'/' path)

abbrev pub digits_of_length : ℕ → Text → Bool
digits_of_length n s = length s == n && all is_ascii_digit s

-- The parts behind the last four components, in the reverse order.
unfoldable pub bucket_of_reversed : List Text → Option Text
bucket_of_reversed (name ∷ second ∷ minute ∷ hour ∷ day ∷ month ∷ year ∷ rest) =
    if digits_of_length 4 year
      && digits_of_length 2 month
      && digits_of_length 2 day
      && digits_of_length 2 hour
    then some (year ++ codes "/" ++ month ++ codes "/" ++ day ++ codes "/" ++ hour)
    else none
bucket_of_reversed _ = none

unfoldable pub derive_bucket : Text → Option Text
unfolding components bucket_of_reversed
derive_bucket file_path = bucket_of_reversed (reverse (components file_path))
