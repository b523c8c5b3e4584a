-- ===== src/Prelude/Maps.antt =====
-- `HashMap` as the function of its look-ups. The program walks over one only to close connections, so neither
-- the order nor the number of its entries is modelled.
use mathlib.Core.Bool.{Bool}
use mathlib.Core.Option.{Option, none, some}
use headless_siem.Prelude.Tests.{if◌then◌else◌}
use headless_siem.Prelude.Equality.{Eq, ◌==◌}

module _ {ℓ κ} (K : Type ℓ) (V : Type κ) where
  abbrev pub HashMap : Type (ℓ ⊔ κ)
  HashMap = K → Option V

abbrev pub keep_if {ℓ} : {V : Type ℓ} → (V → Bool) → Option V → Option V
keep_if p none = none
keep_if p (some v) = if p v then some v else none

module _ {ℓ κ} {K : Type ℓ} {V : Type κ} where
  abbrev pub empty_map : HashMap K V
  empty_map k = none

  -- `retain`
  abbrev pub retain : (V → Bool) → HashMap K V → HashMap K V
  retain p m k = keep_if p (m k)

module _ {ℓ κ} {K : Type ℓ} {V : Type κ} ⦃e : Eq K⦄ where
  abbrev pub insert : K → V → HashMap K V → HashMap K V
  insert k v m j = if k == j then some v else m j

  abbrev pub remove : K → HashMap K V → HashMap K V
  remove k m j = if k == j then none else m j
