-- ===== src/Siemctl/Time/Advance.antt =====
-- `HourBucket::advance` walks the buckets that `ruled` and `correlated` write: one hour forward is
-- the bucket of the instant 3600 seconds later.
use headless_siem.Prelude.{
  ℕ, zero, suc, ◌+◌, ◌-◌, ◌*◌, ◌/◌, ◌%◌, ◌≤◌, ◌<◌, ◌≡◌, refl, ap, sym, ◌∙◌, Bool, false, Text, List,
  [], ◌∷◌, ltb, ltb→lt, arith, Bool-cases, inl, inr, if◌then◌else◌,
}
use headless_siem.Calendar.{Date, Bucket, is_leap, days_to_date, bucket_from_epoch, bucket_dir}
use headless_siem.Calendar.Months.{month_length, next_date}
use headless_siem.Calendar.Days.{days_to_date-suc}
use headless_siem.Siemctl.Time.{
  HourBucket, advance, advance_by, days_in_month, dir_under, bucket_lt, walk, dirs_in_range_under,
}

-- A bucket of `ruled`, as `siemctl` holds it.
abbrev pub hour_bucket : Bucket → HourBucket
hour_bucket b = record { year = b.date.year; month = b.date.month; day = b.date.day; hour = b.hour }

pub days_in_month_agree : (m y : ℕ) → days_in_month m y ≡ month_length (is_leap y) m
unfolding days_in_month month_length is_leap
days_in_month_agree m y = ground arith

last_hour : (t : ℕ) → t % 86400 / 3600 ≤ 23
last_hour t = omega arith

advance_hour :
    (d : Date) (h : ℕ)
    → h < 23
    → advance (hour_bucket (record { date = d; hour = h }))
      ≡ hour_bucket (record { date = d; hour = h + 1 })
unfolding advance
advance_hour d h lt = ground arith

advance_day :
    (d : Date)
    → advance (hour_bucket (record { date = d; hour = 23 }))
      ≡ hour_bucket (record { date = next_date d; hour = 0 })
unfolding advance next_date
advance_day d = ground (arith, days_in_month_agree d.month d.year)

next_hour-same_day :
    (t : ℕ)
    → t % 86400 / 3600 < 23
    → bucket_from_epoch (t + 3600)
      ≡ record { date = days_to_date (t / 86400); hour = t % 86400 / 3600 + 1 }
unfolding bucket_from_epoch
next_hour-same_day t lt =
    let d : (t + 3600) / 86400 ≡ t / 86400 = omega arith in
    let h : (t + 3600) % 86400 / 3600 ≡ t % 86400 / 3600 + 1 = omega arith in rw (d, h)

next_hour-next_day :
    (t : ℕ)
    → t % 86400 / 3600 ≡ 23
    → bucket_from_epoch (t + 3600)
      ≡ record { date = next_date (days_to_date (t / 86400)); hour = 0 }
unfolding bucket_from_epoch
next_hour-next_day t e =
    let d : (t + 3600) / 86400 ≡ suc (t / 86400) = omega arith in
    let h : (t + 3600) % 86400 / 3600 ≡ 0 = omega arith in rw (d, h, days_to_date-suc (t / 86400))

-- At every instant, advancing the bucket of the instant gives the bucket of the instant one hour
-- later, across the ends of days, months and years, leap years included.
pub advance-bucket_from_epoch :
    (t : ℕ)
    → advance (hour_bucket (bucket_from_epoch t)) ≡ hour_bucket (bucket_from_epoch (t + 3600))
unfolding bucket_from_epoch
advance-bucket_from_epoch t = elim (Bool-cases (ltb (t % 86400 / 3600) 23)) [
  | inl early ↦
      advance_hour (days_to_date (t / 86400)) (t % 86400 / 3600) (ltb→lt _ _ early)
      ∙ ap hour_bucket (sym (next_hour-same_day t (ltb→lt _ _ early)))
  | inr late ↦
      let e : t % 86400 / 3600 ≡ 23 = ground (arith, last_hour t) in
      ap (λ h. advance (hour_bucket (record { date = days_to_date (t / 86400); hour = h }))) e
      ∙ advance_day (days_to_date (t / 86400))
      ∙ ap hour_bucket (sym (next_hour-next_day t e))
]

-- Advancing the bucket of any instant `n` times gives the bucket of the instant `n` hours later.
pub advance_by-bucket_from_epoch :
    (n t : ℕ)
    → advance_by (hour_bucket (bucket_from_epoch t)) n
      ≡ hour_bucket (bucket_from_epoch (t + 3600 * n))
unfolding advance_by
advance_by-bucket_from_epoch zero t = ap (λ s. hour_bucket (bucket_from_epoch s)) (omega arith)
advance_by-bucket_from_epoch (suc n) t =
    ap (λ b. advance_by b n) (advance-bucket_from_epoch t)
    ∙ advance_by-bucket_from_epoch n (t + 3600)
    ∙ ap (λ s. hour_bucket (bucket_from_epoch s)) (omega arith)

-- The bucket directories of `n` hours from an instant on, as `ruled` and `correlated` name them.
pub hour_dirs : Text → ℕ → ℕ → List Text
hour_dirs base t zero = []
hour_dirs base t (suc n) = bucket_dir base (bucket_from_epoch t) ∷ hour_dirs base (t + 3600) n

abbrev pub existing : (Text → Bool) → List Text → List Text
existing is_dir [] = []
existing is_dir (d ∷ ds) = let rest = existing is_dir ds in if is_dir d then d ∷ rest else rest

module _ (is_dir : Text → Bool) (hours_between : HourBucket → HourBucket → ℕ) (base : Text) where
  same_dir :
      (t : ℕ)
      → dir_under (hour_bucket (bucket_from_epoch t)) base ≡ bucket_dir base (bucket_from_epoch t)
  unfolding dir_under bucket_dir
  same_dir t = refl

  walk-hour_dirs :
      (n t : ℕ)
      → walk is_dir hours_between base n (hour_bucket (bucket_from_epoch t))
        ≡ existing is_dir (hour_dirs base t n)
  unfolding walk hour_dirs
  walk-hour_dirs zero t = refl
  walk-hour_dirs (suc n) t =
      rw (advance-bucket_from_epoch t, same_dir t, walk-hour_dirs n (t + 3600))

  -- Let `chrono` count the hours between the buckets of two instants as the difference of their
  -- whole hours since the epoch, and let the first bucket be no later than the second. Then the walk
  -- over the range gives exactly the directories that exist among those that `ruled` and
  -- `correlated` write to in the hours of the range, both ends included, in order.
  pub dirs_in_range_under_complete :
      (t u : ℕ)
      → hours_between (hour_bucket (bucket_from_epoch t)) (hour_bucket (bucket_from_epoch u))
        ≡ u / 3600 - t / 3600
      → bucket_lt (hour_bucket (bucket_from_epoch u)) (hour_bucket (bucket_from_epoch t)) ≡ false
      → dirs_in_range_under is_dir hours_between base
          (hour_bucket (bucket_from_epoch t))
          (hour_bucket (bucket_from_epoch u))
        ≡ existing is_dir (hour_dirs base t (suc (u / 3600 - t / 3600)))
  unfolding dirs_in_range_under
  dirs_in_range_under_complete t u hours order =
      rw (order, hours) (walk-hour_dirs (suc (u / 3600 - t / 3600)) t)
