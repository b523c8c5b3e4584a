-- ===== src/Calendar/Months.antt =====
-- The days within a year, by a table of all of them: each date's month and day are in range, and
-- the day after a date is the next day of its month, or the first of the next month.
use headless_siem.Prelude.{
  passes_until, passes_before, ℕ, suc, ◌+◌, ◌≤◌, ◌<◌, ◌≡◌, refl, Bool, true, false, ◌&&◌, ◌||◌, ltb,
  leb, eqb, arith, if◌then◌else◌,
}
use headless_siem.Calendar.{is_leap, days_of_year, month_days, month_loop, Date, date_in_year}

-- The length of a month, from its number and whether the year is a leap year.
unfoldable pub month_length : Bool → ℕ → ℕ
month_length leap m =
    if eqb m 4 || (eqb m 6 || (eqb m 9 || eqb m 11))
    then 30
    else if eqb m 2
    then (if leap then 29 else 28)
    else 31

place : Bool → ℕ → ℕ × ℕ
place leap r = month_loop (month_days leap) r 1

-- What follows a day of the year, within the year.
follows : Bool → ℕ × ℕ → ℕ × ℕ → Bool
follows leap (m, l) (m', l') =
    if ltb (l + 1) (month_length leap m)
    then eqb m' m && eqb l' (l + 1)
    else ltb m 12 && (eqb m' (m + 1) && eqb l' 0)

well_placed : Bool → ℕ × ℕ → Bool
well_placed leap (m, l) = leb 1 m && (leb m 12 && ltb l (month_length leap m))

is_last : ℕ × ℕ → Bool
is_last (m, l) = eqb m 12 && eqb l 30

check : Bool → ℕ → Bool
check leap r =
    well_placed leap (place leap r)
    && (if ltb (r + 1) (days_of_year leap)
        then follows leap (place leap r) (place leap (r + 1))
        else is_last (place leap r))

table : (leap : Bool) → passes_until (check leap) (days_of_year leap) ≡ true
unfolding passes_until check place month_loop follows well_placed is_last month_length
table true = refl
table false = refl

checked : (leap : Bool) (r : ℕ) → r < days_of_year leap → check leap r ≡ true
checked leap r lt = passes_before (check leap) (days_of_year leap) r (table leap) lt

-- The date after a date.
unfoldable pub next_date : Date → Date
next_date d =
    if ltb (month_length (is_leap d.year) d.month) (d.day + 1)
    then (if ltb 12 (d.month + 1)
        then record { year = d.year + 1; month = 1; day = 1 }
        else record { year = d.year; month = d.month + 1; day = 1 })
    else record { year = d.year; month = d.month; day = d.day + 1 }

-- A date of the calendar.
pub record IsDate (d : Date) : Type 0 where
  pub month_low : 1 ≤ d.month
  pub month_high : d.month ≤ 12
  pub day_low : 1 ≤ d.day
  pub day_high : d.day ≤ month_length (is_leap d.year) d.month

date_at : ℕ → ℕ × ℕ → Date
date_at y (m, l) = record { year = y; month = m; day = l + 1 }

date_in_year-place : (y r : ℕ) → date_in_year (y, r) ≡ date_at y (place (is_leap y) r)
unfolding date_in_year place date_at
date_in_year-place y r = refl

-- The facts of the table, at any place.
date_at-IsDate : (y : ℕ) (p : ℕ × ℕ) → well_placed (is_leap y) p ≡ true → IsDate (date_at y p)
unfolding well_placed date_at
date_at-IsDate y (m, l) h = ground arith

date_at-follows :
    (y : ℕ) (p q : ℕ × ℕ) → follows (is_leap y) p q ≡ true → date_at y q ≡ next_date (date_at y p)
unfolding follows date_at next_date
date_at-follows y (m, l) (m', l') h = ground arith

date_at_last :
    (y : ℕ) (p : ℕ × ℕ) → is_last p ≡ true → date_at (suc y) (1, 0) ≡ next_date (date_at y p)
unfolding is_last date_at next_date month_length
date_at_last y (m, l) h =
    let e : m ≡ 12 = ground arith in let f : l ≡ 30 = ground arith in rw (e, f) (ground arith)

place-zero : (leap : Bool) → place leap 0 ≡ (1, 0)
unfolding place month_loop
place-zero true = refl
place-zero false = refl

module _ (leap : Bool) (r : ℕ) (lt : r < days_of_year leap) where
  checked_place : well_placed leap (place leap r) ≡ true
  unfolding check
  checked_place = ground (arith, checked leap r lt)

  checked_follows :
      r + 1 < days_of_year leap → follows leap (place leap r) (place leap (r + 1)) ≡ true
  unfolding check
  checked_follows more = ground (arith, checked leap r lt)

  checked_last : r + 1 ≡ days_of_year leap → is_last (place leap r) ≡ true
  unfolding check
  checked_last end = ground (arith, checked leap r lt)

pub date_in_year-IsDate : (y r : ℕ) → r < days_of_year (is_leap y) → IsDate (date_in_year (y, r))
date_in_year-IsDate y r lt =
    rw (date_in_year-place y r)
      (date_at-IsDate y (place (is_leap y) r) (checked_place (is_leap y) r lt))

pub date_in_year-next :
    (y r : ℕ)
    → r + 1 < days_of_year (is_leap y)
    → date_in_year (y, r + 1) ≡ next_date (date_in_year (y, r))
date_in_year-next y r lt =
    rw (date_in_year-place y (r + 1), date_in_year-place y r)
      (date_at-follows y (place (is_leap y) r) (place (is_leap y) (r + 1))
        (checked_follows (is_leap y) r (omega arith) lt))

pub date_in_year_last :
    (y r : ℕ)
    → r + 1 ≡ days_of_year (is_leap y)
    → date_in_year (suc y, 0) ≡ next_date (date_in_year (y, r))
date_in_year_last y r e =
    rw (date_in_year-place (suc y) 0, date_in_year-place y r, place-zero (is_leap (suc y)))
      (date_at_last y (place (is_leap y) r) (checked_last (is_leap y) r (omega arith) e))
