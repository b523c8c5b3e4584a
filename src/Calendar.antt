-- ===== src/Calendar.antt =====
-- src/ruled/src/output.rs, `bucket_from_epoch`, `days_to_date` and `is_leap`: the hour bucket of
-- an instant in epoch seconds. src/correlated/src/output.rs holds the same three functions.
pub mod Days
pub mod Months
use headless_siem.Prelude.{
  ℕ, zero, suc, ◌+◌, ◌-◌, ◌/◌, ◌%◌, Bool, true, false, ◌&&◌, ◌||◌, not, List, [], ◌∷◌, Text, codes,
  ◌==◌, nat_eq, ltb, eqb, padded, join_path, if◌then◌else◌,
}

unfoldable pub is_leap : ℕ → Bool
is_leap y = y % 4 == 0 && not (y % 100 == 0) || y % 400 == 0

abbrev pub days_of_year : Bool → ℕ
days_of_year leap = if leap then 366 else 365

abbrev pub month_days : Bool → List ℕ
month_days leap =
    31 ∷ (if leap then 29 else 28) ∷ 31 ∷ 30 ∷ 31 ∷ 30 ∷ 31 ∷ 31 ∷ 30 ∷ 31 ∷ 30 ∷ 31 ∷ []

-- The `loop` over the years; a year takes at least one day, so the days are enough fuel.
unfoldable pub year_loop : ℕ → ℕ → ℕ → ℕ × ℕ
year_loop zero remaining year = (year, remaining)
year_loop (suc fuel) remaining year =
    let rest = year_loop fuel (remaining - days_of_year (is_leap year)) (suc year) in
    if ltb remaining (days_of_year (is_leap year)) then (year, remaining) else rest

-- The `for` over the months.
unfoldable pub month_loop : List ℕ → ℕ → ℕ → ℕ × ℕ
month_loop [] remaining month = (month, remaining)
month_loop (md ∷ mds) remaining month =
    let rest = month_loop mds (remaining - md) (suc month) in
    if ltb remaining md then (month, remaining) else rest

pub record Date : Type 0 where
  pub year : ℕ
  pub month : ℕ
  pub day : ℕ

-- The date of a day of a year, counted from 0.
unfoldable pub date_in_year : ℕ × ℕ → Date
unfolding month_loop
date_in_year (year, remaining) =
    let (month, left) = month_loop (month_days (is_leap year)) remaining 1 in
    record { year = year; month = month; day = left + 1 }

unfoldable pub days_to_date : ℕ → Date
unfolding year_loop date_in_year is_leap
days_to_date days = date_in_year (year_loop (suc days) days 1970)

-- An hour-precision bucket, `YYYY/MM/DD/HH`.
pub record Bucket : Type 0 where
  pub date : Date
  pub hour : ℕ

unfoldable pub bucket_from_epoch : ℕ → Bucket
unfolding days_to_date
bucket_from_epoch secs = record { date = days_to_date (secs / 86400); hour = secs % 86400 / 3600 }

-- The directory of a bucket under a base directory.
unfoldable pub bucket_dir : Text → Bucket → Text
bucket_dir base b =
    join_path
      (join_path (join_path (join_path base (padded 4 b.date.year)) (padded 2 b.date.month))
        (padded 2 b.date.day))
      (padded 2 b.hour)
