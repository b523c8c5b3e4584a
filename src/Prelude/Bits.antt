-- ===== src/Prelude/Bits.antt =====
-- `&` and `|` on words: their lowest digit, `&` with a mask of high digits, `|` of separate fields.
use Prim.Native.Nat.{
  ℕ, zero, suc, ◌+◌, ◌-◌, ◌*◌, ◌/◌, ◌%◌, ◌^◌, ◌≤◌, ◌<◌, min, max, bit_and, bit_or, digits,
  bit_and-bitwise, bit_or-bitwise,
}
use mathlib.Core.Path.{◌≡◌, refl, ap}
use native.Mathlib.Omega.{arith}
use native.Mathlib.Nat.{pow-suc}

-- More digits to go than the number has change nothing.
digits_enough :
    (end : ℕ → ℕ) (op : ℕ → ℕ → ℕ) (few many x y : ℕ)
    → x ≤ few
    → few ≤ many
    → digits end op many x y ≡ digits end op few x y
digits_enough end op zero zero x y le more = refl
digits_enough end op zero (suc many) zero y le more = refl
digits_enough end op zero (suc many) (suc x) y le more = absurd (omega arith)
digits_enough end op (suc few) zero x y le more = absurd (omega arith)
digits_enough end op (suc few) (suc many) zero y le more = refl
digits_enough end op (suc few) (suc many) (suc x) y le more =
    ap (λ (d : ℕ). d * 2 + op (suc x % 2) (y % 2))
      (digits_enough end op few many (suc x / 2) (y / 2) (omega arith) (omega arith))

lowest :
    (end : ℕ → ℕ) (op : ℕ → ℕ → ℕ) (x y : ℕ)
    → digits end op (suc x) (suc x) y
      ≡ digits end op (suc x / 2) (suc x / 2) (y / 2) * 2 + op (suc x % 2) (y % 2)
lowest end op x y =
    ap (λ (d : ℕ). d * 2 + op (suc x % 2) (y % 2))
      (digits_enough end op (suc x / 2) x (suc x / 2) (y / 2) (omega arith) (omega arith))

pub bit_and-lowest : (x y : ℕ) → bit_and x y ≡ bit_and (x / 2) (y / 2) * 2 + min (x % 2) (y % 2)
bit_and-lowest zero y = simp bit_and-bitwise (omega arith)
bit_and-lowest (suc x) y = simp bit_and-bitwise (lowest (λ y. 0) min x y)

pub bit_or-lowest : (x y : ℕ) → bit_or x y ≡ bit_or (x / 2) (y / 2) * 2 + max (x % 2) (y % 2)
bit_or-lowest zero y = simp bit_or-bitwise (omega arith)
bit_or-lowest (suc x) y = simp bit_or-bitwise (lowest (λ y. y) max x y)

-- The size bounds the recursion.
bit_or-none : (size x : ℕ) → x ≤ size → bit_or x 0 ≡ x
bit_or-none size zero le = refl
bit_or-none zero (suc x) le = absurd (omega arith)
bit_or-none (suc size) (suc x) le =
    ground (arith, bit_or-lowest (suc x) 0, bit_or-none size (suc x / 2) (omega arith))

double : (a k : ℕ) → a * 2 ^ suc k ≡ (a * 2 ^ k) * 2
double a k = omega (arith, ap (λ (t : ℕ). a * t) (pow-suc 2 k))

-- A mask of high digits leaves what lies below it out.
pub bit_and-high :
    (k a b m : ℕ) → b < 2 ^ k → bit_and (a * 2 ^ k + b) (m * 2 ^ k) ≡ bit_and a m * 2 ^ k
bit_and-high zero a b m lt = ground arith
bit_and-high (suc k) a b m lt = ground (
  arith,
  bit_and-lowest (a * 2 ^ suc k + b) (m * 2 ^ suc k),
  double a k,
  double m k,
  double (bit_and a m) k,
  pow-suc 2 k,
  bit_and-high k a (b / 2) m (omega (arith, pow-suc 2 k)),
)

pub bit_and-ones : (n x : ℕ) → x < 2 ^ n → bit_and x (2 ^ n - 1) ≡ x
bit_and-ones zero x lt = ground arith
bit_and-ones (suc n) x lt = ground (
  arith,
  bit_and-lowest x (2 ^ suc n - 1),
  pow-suc 2 n,
  bit_and-ones n (x / 2) (omega (arith, pow-suc 2 n)),
)

pub bit_or-field : (k a b : ℕ) → b < 2 ^ k → bit_or (a * 2 ^ k) b ≡ a * 2 ^ k + b
bit_or-field zero a b lt = ground (arith, bit_or-none a a (omega arith))
bit_or-field (suc k) a b lt = ground (
  arith,
  bit_or-lowest (a * 2 ^ suc k) b,
  double a k,
  bit_or-field k a (b / 2) (omega (arith, pow-suc 2 k)),
)
