-- ===== src/Siemctl/RawFile.antt =====
-- src/siemctl/src/time.rs: explicit timestamps, and the bounds on the `raw_file` column of the index.
-- The calendar of the crate chrono is the argument `Civil`.
pub mod Order
pub mod RoundTrip
use headless_siem.Prelude.{
  ℕ, ◌^◌, Text, codes, split, split_once, strip_prefix, parse_unsigned, padded, Option, none, some,
  List, [], ◌∷◌, ◌++◌, ℤ, parse_signed, padded_int,
}
use headless_siem.Prelude.Options.{◌>>=◌, ◌>>◌}

-- `chrono::DateTime<Utc>` by its calendar fields; `with_ymd_and_hms` is followed by `single`.
pub record Civil (I : Type 0) : Type 0 where
  pub year : I → ℤ
  pub month : I → ℕ
  pub day : I → ℕ
  pub hour : I → ℕ
  pub minute : I → ℕ
  pub second : I → ℕ
  pub with_ymd_and_hms : ℤ → ℕ → ℕ → ℕ → ℕ → ℕ → Option I

abbrev i32_bound : ℕ
i32_bound = 2 ^ 31

abbrev u32_bound : ℕ
u32_bound = 2 ^ 32

-- `next()` on the parts, and the rest of them.
abbrev part : List Text → Option ℕ
part [] = none
part (x ∷ rest) = parse_unsigned u32_bound x

abbrev part_or_zero : List Text → Option ℕ
part_or_zero [] = some 0
part_or_zero (x ∷ rest) = parse_unsigned u32_bound x

abbrev signed_part : List Text → Option ℤ
signed_part [] = none
signed_part (x ∷ rest) = parse_signed i32_bound x

abbrev tail : List Text → List Text
tail [] = []
tail (x ∷ rest) = rest

abbrev no_more : List Text → Option (Unit {0})
no_more [] = some tt
no_more (x ∷ rest) = none

module _ {I : Type 0} ⦃C : Civil I⦄ where
  instant_of_parts : List Text → List Text → Option I
  instant_of_parts d t = do
    year ← signed_part d
    month ← part (tail d)
    day ← part (tail (tail d))
    no_more (tail (tail (tail d)))
    hour ← part t
    minute ← part_or_zero (tail t)
    second ← part_or_zero (tail (tail t))
    no_more (tail (tail (tail t)))
    C.with_ymd_and_hms year month day hour minute second

  -- The one error message is added by the caller.
  pub parse_explicit_timestamp : Text → Option I
  unfolding instant_of_parts
  parse_explicit_timestamp s = do
    parts ← split_once b'T' s
    instant_of_parts (split b'-' parts.0) (split b':' parts.1)

  unfoldable pub raw_file_bound : I → Text
  raw_file_bound t =
      codes "raw/"
      ++ padded_int 4 (C.year t)
      ++ codes "/"
      ++ padded 2 (C.month t)
      ++ codes "/"
      ++ padded 2 (C.day t)
      ++ codes "/"
      ++ padded 2 (C.hour t)
      ++ codes "/"
      ++ padded 2 (C.minute t)
      ++ codes "/"
      ++ padded 2 (C.second t)

  instant_of_path : List Text → Option I
  instant_of_path p = do
    year ← signed_part p
    month ← part (tail p)
    day ← part (tail (tail p))
    hour ← part (tail (tail (tail p)))
    minute ← part (tail (tail (tail (tail p))))
    second ← part (tail (tail (tail (tail (tail p)))))
    C.with_ymd_and_hms year month day hour minute second

  unfoldable pub parse_raw_file_time : Text → Option I
  unfolding instant_of_path
  parse_raw_file_time raw_file = do
    rest ← strip_prefix raw_file (codes "raw/")
    instant_of_path (split b'/' rest)
