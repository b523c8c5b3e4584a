-- ===== src/Prelude/Options.antt =====
-- `?` on an `Option`.
use mathlib.Core.Path.{◌≡◌, refl, sym}
use mathlib.Core.Option.{Option, none, some, some-ne-none}
use mathlib.Core.Bool.{Bool, true, false}

infixl 5 ◌>>=◌ ◌>>◌
abbrev pub ◌>>=◌ {ℓ κ} : {A : Type ℓ} {B : Type κ} → Option A → (A → Option B) → Option B
some a >>= f = f a
none >>= f = none

abbrev pub ◌>>◌ {ℓ} : {B : Type ℓ} → Option (Unit {0}) → Option B → Option B
m >> k = m >>= λ _. k

abbrev pub guard : Bool → Option (Unit {0})
guard true = some tt
guard false = none

module _ {ℓ κ} {A : Type ℓ} {B : Type κ} where
  pub bind_congr :
      (m : Option A) (f g : A → Option B) → ((a : A) → f a ≡ g a) → (m >>= f) ≡ (m >>= g)
  bind_congr none f g h = refl
  bind_congr (some a) f g h = h a

pub bind_assoc {ℓ κ ι} :
    {A : Type ℓ} {B : Type κ} {D : Type ι} (m : Option A) (f : A → Option B) (g : B → Option D)
    → (m >>= f >>= g) ≡ (m >>= λ a. f a >>= g)
bind_assoc none f g = refl
bind_assoc (some a) f g = refl

pub bind_same {ℓ} :
    {A : Type ℓ} (m : Option A) (f : A → Option A) → ((a : A) → f a ≡ some a) → (m >>= f) ≡ m
bind_same none f h = refl
bind_same (some a) f h = h a

pub bind_some {ℓ} : {A : Type ℓ} (m : Option A) → (m >>= λ a. some a) ≡ m
bind_some none = refl
bind_some (some a) = refl

-- A chain that gives a value has one at its first step.
pub bind-first {ℓ κ} :
    {A : Type ℓ} {B : Type κ} (m : Option A) (f : A → Option B) (b : B)
    → (m >>= f) ≡ some b
    → (a : A) × (m ≡ some a)
bind-first none f b h = absurd (some-ne-none b (sym h))
bind-first (some a) f b h = (a, refl)

pub bind-steps {ℓ κ} :
    {A : Type ℓ} {B : Type κ} (m : Option A) (f : A → Option B) (b : B)
    → (m >>= f) ≡ some b
    → (a : A) × (m ≡ some a) × (f a ≡ some b)
bind-steps none f b h = absurd (some-ne-none b (sym h))
bind-steps (some a) f b h = (a, refl, h)
