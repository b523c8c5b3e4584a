-- ===== src/Siemctl/Time.antt =====
-- src/siemctl/src/time.rs, `HourBucket`: the hour directories and index files, and the walk over a
-- range of them. Years are not negative (`parse` and `from_filename` split at `-`).
pub mod Advance
use headless_siem.Prelude.{
  ℕ, zero, suc, ◌+◌, ◌%◌, ◌^◌, Text, codes, split, split_once, reverse, strip_prefix,
  parse_unsigned, padded, join_path, Bool, true, false, ◌&&◌, ◌||◌, not, Option, none, some, List,
  [], ◌∷◌, ◌++◌, ltb, leb, ◌==◌, nat_eq, if◌then◌else◌,
}
use headless_siem.Prelude.Options.{◌>>=◌, ◌>>◌, guard}

pub record HourBucket : Type 0 where
  pub year : ℕ
  pub month : ℕ
  pub day : ℕ
  pub hour : ℕ

-- `i32` and `u8`
abbrev i32_max_plus_one : ℕ
i32_max_plus_one = 2 ^ 31

abbrev u8_mod : ℕ
u8_mod = 2 ^ 8

in_range : ℕ → ℕ → ℕ → Bool
in_range month day hour = leb 1 month && leb month 12 && (leb 1 day && leb day 31) && leb hour 23

bucket_of_texts : Text → Text → Text → Text → Option HourBucket
unfolding in_range
bucket_of_texts y m d h = do
  year ← parse_unsigned i32_max_plus_one y
  month ← parse_unsigned u8_mod m
  day ← parse_unsigned u8_mod d
  hour ← parse_unsigned u8_mod h
  guard (in_range month day hour)
  some (record { year = year; month = month; day = day; hour = hour })

abbrev head_text : List Text → Text
head_text [] = []
head_text (s ∷ rest) = s

-- The date's first three parts, and the time up to its first `:`; more parts are ignored.
parse_parts : List Text → Text → Option HourBucket
unfolding bucket_of_texts
parse_parts (y ∷ m ∷ d ∷ rest) time = bucket_of_texts y m d (head_text (split b':' time))
parse_parts _ time = none

unfoldable pub parse : Text → Option HourBucket
unfolding parse_parts
parse s = elim (split_once b'T' s) [
  | none ↦ none
  | some (date, time) ↦ parse_parts (split b'-' date) time
]

-- `name.strip_suffix(".db").unwrap_or(name)`
unfoldable pub strip_db : Text → Text
strip_db name = elim (strip_prefix (reverse name) (reverse (codes ".db"))) [
  | none ↦ name
  | some rest ↦ reverse rest
]

filename_parts : List Text → Option HourBucket
unfolding bucket_of_texts
filename_parts (y ∷ m ∷ d ∷ h ∷ []) = bucket_of_texts y m d h
filename_parts _ = none

unfoldable pub from_filename : Text → Option HourBucket
unfolding filename_parts strip_db
from_filename name = filename_parts (split b'-' (strip_db name))

unfoldable pub dir_under : HourBucket → Text → Text
dir_under b base =
    join_path
      (join_path (join_path (join_path base (padded 4 b.year)) (padded 2 b.month)) (padded 2 b.day))
      (padded 2 b.hour)

unfoldable pub days_in_month : ℕ → ℕ → ℕ
days_in_month m y =
    if m == 4 || (m == 6 || (m == 9 || m == 11))
    then 30
    else if m == 2
    then (if y % 4 == 0 && (not (y % 100 == 0) || y % 400 == 0) then 29 else 28)
    else 31

unfoldable pub advance : HourBucket → HourBucket
unfolding days_in_month
advance b =
    if ltb 23 (b.hour + 1)
    then (if ltb (days_in_month b.month b.year) (b.day + 1)
        then (if ltb 12 (b.month + 1)
            then record { year = b.year + 1; month = 1; day = 1; hour = 0 }
            else record { year = b.year; month = b.month + 1; day = 1; hour = 0 })
        else record { year = b.year; month = b.month; day = b.day + 1; hour = 0 })
    else record { year = b.year; month = b.month; day = b.day; hour = b.hour + 1 }

unfoldable pub advance_by : HourBucket → ℕ → HourBucket
advance_by b zero = b
advance_by b (suc n) = advance_by (advance b) n

-- `"MM-DD HH:00"`
pub label : HourBucket → Text
label b =
    padded 2 b.month ++ codes "-" ++ padded 2 b.day ++ codes " " ++ padded 2 b.hour ++ codes ":00"

-- The derived order: by year, month, day and hour.
unfoldable pub bucket_lt : HourBucket → HourBucket → Bool
bucket_lt a b =
    if ltb a.year b.year
    then true
    else if ltb b.year a.year
    then false
    else if ltb a.month b.month
    then true
    else if ltb b.month a.month
    then false
    else if ltb a.day b.day
    then true
    else if ltb b.day a.day
    then false
    else ltb a.hour b.hour

-- `is_dir` is the file system; `hours_between from to` is `(to.to_datetime() -
-- from.to_datetime()).num_hours()`, by the `chrono` crate.
module _ (is_dir : Text → Bool) (hours_between : HourBucket → HourBucket → ℕ) where
  unfoldable pub walk : Text → ℕ → HourBucket → List Text
  walk base zero cur = []
  walk base (suc n) cur =
      let rest = walk base n (advance cur) in
      if is_dir (dir_under cur base) then dir_under cur base ∷ rest else rest

  unfoldable pub dirs_in_range_under : Text → HourBucket → HourBucket → List Text
  unfolding walk
  dirs_in_range_under base from to =
      if bucket_lt to from then [] else walk base (suc (hours_between from to)) from

  pub hour_dirs_in_range : Text → HourBucket → HourBucket → List Text
  unfolding dirs_in_range_under
  hour_dirs_in_range data_dir from to =
      dirs_in_range_under (join_path data_dir (codes "raw")) from to
