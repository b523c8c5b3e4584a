-- ===== src/Siemctl/Window.antt =====
-- src/siemctl/src/time.rs, from `Window` on: windows of the digest, relative durations, explicit
-- ranges. The crate chrono is the argument `Spans` (its arithmetic, which panics out of range).
pub mod LastChar
pub mod Durations
use headless_siem.Prelude.{
  ℕ, zero, suc, ◌^◌, ◌-◌, Text, codes, split_once_at, reverse, trim, is_empty, Bool, Option, none,
  some, [], ◌∷◌, ltb, ◌==◌, nat_eq, list_eq, if◌then◌else◌, ℤ, pos, negsuc, parse_signed,
}
use headless_siem.Prelude.Results.{Result, ok, err, ◌>>=◌}
use headless_siem.Bytes.{byte_length, split_at}
use headless_siem.Siemctl.RawFile.{Civil, parse_explicit_timestamp, raw_file_bound}

-- `none` is a panic.
pub record Spans (I D : Type 0) : Type 0 where
  pub at_most : I → I → Bool
  pub between : I → I → D
  pub earlier : I → D → Option I
  pub seconds : ℕ → Option D
  pub minutes : ℕ → Option D
  pub hours : ℕ → Option D
  pub days : ℕ → Option D

-- The messages, and a panic.
pub data TimeError : Type 0 where
  invalid_duration : Text → TimeError
  not_positive : Text → TimeError
  invalid_unit : Text → TimeError
  end_not_after_start : Text → TimeError
  invalid_timestamp : Text → TimeError
  panics : TimeError

pub record Window (I : Type 0) : Type 0 where
  pub start : I
  pub end : I

abbrev i64_bound : ℕ
i64_bound = 2 ^ 63

abbrev pub or_panic {ℓ} : {A : Type ℓ} → Option A → Result TimeError A
or_panic none = err panics
or_panic (some a) = ok a

module _ {I D : Type 0} (S : Spans I D) where
  unfoldable pub duration : Window I → D
  duration w = S.between w.end w.start

  unfoldable pub lookback : Window I → D → Result TimeError (Window I)
  lookback w dur = do
    start ← or_panic (S.earlier w.end dur)
    ok (record { start = start; end = w.end })

  unfoldable pub baseline : Window I → Result TimeError (Window I)
  unfolding duration
  baseline w = do
    start ← or_panic (S.earlier w.start (duration w))
    ok (record { start = start; end = w.start })

  pub duration_of_unit : Text → Text → ℕ → Result TimeError D
  duration_of_unit s unit n =
      if unit == codes "s"
      then or_panic (S.seconds n)
      else if unit == codes "m"
      then or_panic (S.minutes n)
      else if unit == codes "h"
      then or_panic (S.hours n)
      else if unit == codes "d"
      then or_panic (S.days n)
      else err (invalid_unit s)

  pub positive_duration : Text → Text → Option ℤ → Result TimeError D
  unfolding duration_of_unit
  positive_duration s unit none = err (invalid_duration s)
  positive_duration s unit (some (negsuc n)) = err (not_positive s)
  positive_duration s unit (some (pos zero)) = err (not_positive s)
  positive_duration s unit (some (pos (suc n))) = duration_of_unit s unit (suc n)

  -- The two sides of `split_at`.
  pub number_and_unit : Text → Option (Text × Text) → Result TimeError D
  unfolding positive_duration
  number_and_unit s none = err panics
  number_and_unit s (some (num_part, unit)) =
      positive_duration s unit (parse_signed i64_bound num_part)

  pub trimmed_duration : Text → Result TimeError D
  unfolding number_and_unit
  trimmed_duration s =
      if ltb (byte_length s) 2
      then err (invalid_duration s)
      else number_and_unit s (split_at (byte_length s - 1) s)

  unfoldable pub parse_duration : Text → Result TimeError D
  unfolding trimmed_duration
  parse_duration s = trimmed_duration (trim s)

abbrev timestamp_or {ℓ} : {A : Type ℓ} → Text → Option A → Result TimeError A
timestamp_or s none = err (invalid_timestamp s)
timestamp_or s (some a) = ok a

module _ {I D : Type 0} ⦃C : Civil I⦄ (S : Spans I D) where
  check_order : Text → I → I → Result TimeError (Window I)
  check_order s start end =
      if S.at_most end start
      then err (end_not_after_start s)
      else ok (record { start = start; end = end })

  explicit_window : Text → Text → Text → Result TimeError (Window I)
  unfolding check_order
  explicit_window s lo hi = do
    start ← timestamp_or (trim lo) (parse_explicit_timestamp (trim lo))
    end ← timestamp_or (trim hi) (parse_explicit_timestamp (trim hi))
    check_order s start end

  relative_window : Text → I → Result TimeError (Window I)
  unfolding parse_duration
  relative_window s now = do
    dur ← parse_duration S s
    start ← or_panic (S.earlier now dur)
    ok (record { start = start; end = now })

  unfoldable pub parse_window : Text → I → Result TimeError (Window I)
  unfolding explicit_window relative_window
  parse_window s now = elim (split_once_at (codes "..") s) [
    | some (lo, hi) ↦ explicit_window s lo hi
    | none ↦ relative_window s now
  ]

-- `raw_file_range`
pub raw_file_range : {I : Type 0} → ⦃C : Civil I⦄ → Window I → Text × Text
raw_file_range win = (raw_file_bound win.start, raw_file_bound win.end)
