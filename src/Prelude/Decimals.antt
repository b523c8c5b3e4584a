-- ===== src/Prelude/Decimals.antt =====
-- Numbers as text: `to_string`, the zero-padded `{:04}` and `{:02}`, and `Path::join`.
use Prim.Native.Nat.{ℕ, zero, suc, ◌+◌, ◌-◌, ◌/◌, ◌%◌}
use mathlib.Core.List.{[], ◌∷◌, ◌++◌}
use headless_siem.Prelude.Tests.{ltb, if◌then◌else◌}
use headless_siem.Prelude.Lists.{length, replicate}
use headless_siem.Prelude.Texts.{Text, codes, ends_with, is_empty}

unfoldable pub decimal_from : ℕ → ℕ → Text
decimal_from zero n = []
decimal_from (suc fuel) n =
    let front = decimal_from fuel (n / 10) in
    if ltb n 10 then (b'0' + n) ∷ [] else front ++ (b'0' + n % 10) ∷ []

-- A number has no more digits than its successor has units.
unfoldable pub decimal : ℕ → Text
unfolding decimal_from
decimal n = decimal_from (suc n) n

-- `{:0width}`
unfoldable pub padded : ℕ → ℕ → Text
unfolding decimal
padded width n = replicate (width - length (decimal n)) b'0' ++ decimal n

-- `Path::join` with a relative component.
unfoldable pub join_path : Text → Text → Text
join_path base part =
    if is_empty base
    then part
    else if ends_with base (codes "/")
    then base ++ part
    else base ++ codes "/" ++ part
