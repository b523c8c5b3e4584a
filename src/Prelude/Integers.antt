-- ===== src/Prelude/Integers.antt =====
-- Signed integers over the native numbers: `str::parse` at a signed type, and `{:04}` of one.
use Prim.Native.Nat.{ℕ, zero, suc, ◌+◌, ◌-◌}
use mathlib.Core.Option.{Option, none, some}
use mathlib.Core.List.{[], ◌∷◌}
use headless_siem.Prelude.Tests.{if◌then◌else◌}
use headless_siem.Prelude.Equality.{◌==◌, nat_eq}
use headless_siem.Prelude.Texts.{Text, nonempty_digits, parse_unsigned}
use headless_siem.Prelude.Decimals.{padded}

-- `negsuc n` is -(n + 1).
pub data ℤ : Type 0 where
  pos : ℕ → ℤ
  negsuc : ℕ → ℤ

abbrev opposite : ℕ → ℤ
opposite zero = pos 0
opposite (suc n) = negsuc n

abbrev opposite_of : Option ℕ → Option ℤ
opposite_of none = none
opposite_of (some n) = some (opposite n)

abbrev pos_of : Option ℕ → Option ℤ
pos_of none = none
pos_of (some n) = some (pos n)

-- `bound` is 2^31 for `i32`, whose least number is -2^31.
unfoldable pub parse_signed : ℕ → Text → Option ℤ
unfolding parse_unsigned
parse_signed bound [] = none
parse_signed bound (c ∷ s) =
    if c == b'-'
    then opposite_of (nonempty_digits (bound + 1) s)
    else pos_of (parse_unsigned bound (c ∷ s))

-- The sign counts to the width.
unfoldable pub padded_int : ℕ → ℤ → Text
padded_int width (pos n) = padded width n
padded_int width (negsuc n) = b'-' ∷ padded (width - 1) (n + 1)
