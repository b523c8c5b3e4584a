-- ===== src/Siemctl/Samples.antt =====
-- Concrete hour buckets: the last hour of February in a leap year.
use headless_siem.Prelude.{◌++◌, ◌∷◌}
use headless_siem.Prelude.{
  Option, none, if◌then◌else◌, ltb, ◌/◌, ◌^◌, decimal, [], is_whitespace, trim, trim_start, reverse,
}
use headless_siem.Prelude.Results.{err}
use headless_siem.Siemctl.Window.{Spans, panics, or_panic, parse_duration}
use headless_siem.Bytes.{byte_length, split_at}
use headless_siem.Siemctl.Window.LastChar.{by_last_char, parse_duration-by_last_char}
use headless_siem.Siemctl.Window.Durations.{TimeUnit, letter, span, parse_duration-decimal}
use headless_siem.Siemctl.RawFile.RoundTrip.{parse_raw_file_time-bound}
use headless_siem.Siemctl.RawFile.{parse_raw_file_time, Civil, raw_file_bound}
use headless_siem.Siemctl.RawFile.Order.{
  FourDigits, magnitude, fields, first_lt, raw_file_bound-order,
}
use headless_siem.Prelude.{arith, pos, text_lt, some, ℕ, ◌+◌, ◌*◌, ◌≡◌, refl, codes, true}
use headless_siem.Calendar.{bucket_from_epoch}
use headless_siem.Siemctl.Time.{advance, advance_by, dirs_in_range_under, bucket_lt}
use headless_siem.Siemctl.Time.Advance.{
  hour_bucket, advance-bucket_from_epoch, advance_by-bucket_from_epoch, existing, hour_dirs,
  dirs_in_range_under_complete,
}

-- 2024-02-29 23:30:00 UTC
abbrev leap_night : ℕ
leap_night = 1709249400

leap_night_bucket :
    hour_bucket (bucket_from_epoch leap_night)
    ≡ record { year = 2024; month = 2; day = 29; hour = 23 }
unfolding bucket_from_epoch
leap_night_bucket = refl

advance-bucket_from_epoch_example :
    advance (hour_bucket (bucket_from_epoch leap_night))
    ≡ hour_bucket (bucket_from_epoch (leap_night + 3600))
advance-bucket_from_epoch_example = advance-bucket_from_epoch leap_night

advance_by-bucket_from_epoch_example :
    advance_by (hour_bucket (bucket_from_epoch leap_night)) 30
    ≡ hour_bucket (bucket_from_epoch (leap_night + 3600 * 30))
advance_by-bucket_from_epoch_example = advance_by-bucket_from_epoch 30 leap_night

dirs_in_range_under_complete_example :
    dirs_in_range_under
      (λ d. true)
      (λ from to. 2)
      (codes "alerts")
      (hour_bucket (bucket_from_epoch leap_night))
      (hour_bucket (bucket_from_epoch (leap_night + 7200)))
    ≡ existing (λ d. true) (hour_dirs (codes "alerts") leap_night 3)
unfolding bucket_lt bucket_from_epoch
dirs_in_range_under_complete_example =
    dirs_in_range_under_complete (λ d. true) (λ from to. 2) (codes "alerts") leap_night
      (leap_night + 7200) refl refl

-- Instants as their fields, which is all that the bounds look at.
record Moment : Type 0 where
  y : ℕ
  mo : ℕ
  d : ℕ
  h : ℕ
  mi : ℕ
  s : ℕ

instance abbrev moment_civil : Civil Moment
moment_civil = record {
  year = λ t. pos t.y;
  month = λ t. t.mo;
  day = λ t. t.d;
  hour = λ t. t.h;
  minute = λ t. t.mi;
  second = λ t. t.s;
  with_ymd_and_hms =
      λ y mo d h mi s. some (record { y = magnitude y; mo = mo; d = d; h = h; mi = mi; s = s });
}

abbrev evening : Moment
evening = record { y = 2026; mo = 6; d = 9; h = 20; mi = 0; s = 0 }

abbrev late_evening : Moment
late_evening = record { y = 2026; mo = 6; d = 10; h = 9; mi = 30; s = 0 }

evening-FourDigits : FourDigits evening
evening-FourDigits = record {
  year_pos = refl;
  year_fits = omega arith;
  month_fits = omega arith;
  day_fits = omega arith;
  hour_fits = omega arith;
  minute_fits = omega arith;
  second_fits = omega arith;
}

late_evening-FourDigits : FourDigits late_evening
late_evening-FourDigits = record {
  year_pos = refl;
  year_fits = omega arith;
  month_fits = omega arith;
  day_fits = omega arith;
  hour_fits = omega arith;
  minute_fits = omega arith;
  second_fits = omega arith;
}

raw_file_bound-order_example :
    text_lt (raw_file_bound evening) (raw_file_bound late_evening)
    ≡ first_lt (fields evening) (fields late_evening)
raw_file_bound-order_example =
    raw_file_bound-order evening late_evening evening-FourDigits late_evening-FourDigits

parse_raw_file_time-bound_example :
    parse_raw_file_time (raw_file_bound evening ++ b'/' ∷ codes "sshd.jsonl") ≡ some evening
parse_raw_file_time-bound_example =
    parse_raw_file_time-bound evening (codes "sshd.jsonl") evening-FourDigits refl

-- Durations in seconds, up to the greatest that chrono holds.
abbrev limited : ℕ → Option ℕ
limited n = if ltb n (2 ^ 63 / 1000) then some n else none

abbrev in_seconds : Spans Moment ℕ
in_seconds = record {
  at_most = λ a b. true;
  between = λ a b. 0;
  earlier = λ t d. some t;
  seconds = λ n. limited n;
  minutes = λ n. limited (n * 60);
  hours = λ n. limited (n * 3600);
  days = λ n. limited (n * 86400);
}

parse_duration-decimal_example :
    parse_duration in_seconds (decimal 24 ++ letter TimeUnit.hour ∷ [])
    ≡ or_panic (span in_seconds TimeUnit.hour 24)
parse_duration-decimal_example =
    parse_duration-decimal in_seconds 24 TimeUnit.hour (omega arith) (omega arith)

-- `10µ`
parse_duration-by_last_char_example :
    parse_duration in_seconds (decimal 10 ++ 181 ∷ [])
    ≡ by_last_char in_seconds
        (trim (decimal 10 ++ 181 ∷ []))
        (reverse (trim (decimal 10 ++ 181 ∷ [])))
parse_duration-by_last_char_example =
    parse_duration-by_last_char in_seconds (decimal 10 ++ 181 ∷ [])

-- It is a panic.
ten_micro : parse_duration in_seconds (codes "10" ++ 181 ∷ []) ≡ err panics
unfolding parse_duration trim trim_start is_whitespace byte_length split_at
ten_micro = refl
