-- ===== src/Calendar/Days.antt =====
-- `days_to_date` counts days: the date of the day after is the next date of the calendar.
use headless_siem.Prelude.{
  ℕ, zero, suc, ◌+◌, ◌-◌, ◌≤◌, ◌<◌, ◌≡◌, refl, sym, ap, ◌∙◌, ◌⊎◌, inl, inr, Bool, ltb, ltb→lt,
  arith, Bool-cases,
}
use headless_siem.Calendar.Months.{
  IsDate, next_date, date_in_year-IsDate, date_in_year-next, date_in_year_last,
}
use native.Mathlib.Nat.{add-zero, add-suc, suc-add}
use headless_siem.Calendar.{is_leap, days_of_year, year_loop, date_in_year, days_to_date}

-- The days of `n` years from a year on.
pub span : ℕ → ℕ → ℕ
span year zero = 0
span year (suc n) = days_of_year (is_leap year) + span (suc year) n

days_of_year_bounds : (leap : Bool) → (365 ≤ days_of_year leap) × (days_of_year leap ≤ 366)
days_of_year_bounds leap = ground arith

span-last : (n year : ℕ) → span year (suc n) ≡ span year n + days_of_year (is_leap (year + n))
unfolding span
span-last zero year = ground (arith, ap (λ y. days_of_year (is_leap y)) (add-zero year))
span-last (suc n) year = omega (
  arith,
  span-last n (suc year),
  ap (λ y. days_of_year (is_leap y)) (suc-add year n ∙ sym (add-suc year n)),
)

-- The loop over the years splits a number of days into whole years and a day of the next one.
year_loop-span :
    (n fuel year r total last : ℕ)
    → total ≡ span year n + r
    → last ≡ year + n
    → r < days_of_year (is_leap last)
    → n < fuel
    → year_loop fuel total year ≡ (last, r)
unfolding year_loop span
year_loop-span zero zero year r total last t l h lt = absurd (omega arith)
year_loop-span (suc n) zero year r total last t l h lt = absurd (omega arith)
year_loop-span zero (suc fuel) year r total last t l h lt = ground arith
year_loop-span (suc n) (suc fuel) year r total last t l h lt = ground (
  arith,
  year_loop-span n fuel (suc year) r (total - days_of_year (is_leap year)) last (omega arith)
      (omega arith) h (omega arith),
)

span-ge : (n year : ℕ) → n ≤ span year n
unfolding span
span-ge zero year = omega arith
span-ge (suc n) year = omega (arith, span-ge n (suc year), (days_of_year_bounds (is_leap year)).0)

-- Every number of days is so many whole years and a day of the next.
record Split (days : ℕ) : Type 0 where
  years : ℕ
  rest : ℕ
  adds_up : days ≡ span 1970 years + rest
  in_year : rest < days_of_year (is_leap (1970 + years))

-- The split of the day after: a day further into the year, or the first day of the next year.
module _ (days : ℕ) (s : Split days) where
  split_more : s.rest + 1 < days_of_year (is_leap (1970 + s.years)) → Split (suc days)
  split_more more = record {
    years = s.years;
    rest = s.rest + 1;
    adds_up = omega (arith, s.adds_up);
    in_year = more;
  }

  split_full : s.rest + 1 ≡ days_of_year (is_leap (1970 + s.years)) → Split (suc days)
  unfolding span
  split_full full = record {
    years = suc s.years;
    rest = 0;
    adds_up = omega (arith, s.adds_up, span-last s.years 1970);
    in_year = omega (arith, (days_of_year_bounds (is_leap (1970 + suc s.years))).0);
  }

  split_cases :
      (s.rest + 1 < days_of_year (is_leap (1970 + s.years)))
      ⊎ (s.rest + 1 ≡ days_of_year (is_leap (1970 + s.years)))
  split_cases = elim (Bool-cases (ltb (s.rest + 1) (days_of_year (is_leap (1970 + s.years))))) [
    | inl more ↦ inl (ltb→lt _ _ more)
    | inr full ↦ inr (ground (arith, s.in_year))
  ]

split_days : (days : ℕ) → Split days
unfolding span
split_days zero = record { years = 0; rest = 0; adds_up = omega arith; in_year = ground arith }
split_days (suc days) =
    let s = split_days days in
    elim (split_cases days s) [
      | inl more ↦ split_more days s more
      | inr full ↦ split_full days s full
    ]

days_to_date-split :
    (days : ℕ) (s : Split days) → days_to_date days ≡ date_in_year (1970 + s.years, s.rest)
unfolding days_to_date
days_to_date-split days s = ap date_in_year (
    year_loop-span s.years (suc days) 1970 s.rest days (1970 + s.years) s.adds_up refl s.in_year
      (omega (arith, s.adds_up, span-ge s.years 1970)))

-- Whatever the split of a day, the date of the next day is the next date.
days_to_date-suc_split :
    (days : ℕ) (s : Split days) → days_to_date (suc days) ≡ next_date (days_to_date days)
unfolding split_more split_full
days_to_date-suc_split days s = rw (days_to_date-split days s) (elim (split_cases days s) [
  | inl more ↦
      days_to_date-split (suc days) (split_more days s more)
      ∙ date_in_year-next (1970 + s.years) s.rest more
  | inr full ↦
      days_to_date-split (suc days) (split_full days s full)
      ∙ (rw (add-suc 1970 s.years) (date_in_year_last (1970 + s.years) s.rest full))
])

-- The date of the day after any day is the next date of the Gregorian calendar.
pub days_to_date-suc : (days : ℕ) → days_to_date (suc days) ≡ next_date (days_to_date days)
days_to_date-suc days = days_to_date-suc_split days (split_days days)

-- Every day since the epoch has a date whose month and day exist.
pub days_to_date-IsDate : (days : ℕ) → IsDate (days_to_date days)
days_to_date-IsDate days =
    let s = split_days days in
    rw (days_to_date-split days s) (date_in_year-IsDate (1970 + s.years) s.rest s.in_year)
