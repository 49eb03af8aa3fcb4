-- ===== src/Base/Bits.antt =====
-- `bit_or` of a low field and a shifted high field is their sum.
use Prim.Native.Nat.{
  ℕ, zero, suc, ◌+◌, ◌*◌, ◌/◌, ◌%◌, ◌^◌, ◌≤◌, ◌<◌, max, bit_or, digits, bit_or-bitwise,
}
use native.Mathlib.Nat.{pow-suc}
use mathlib.Core.Path.{◌≡◌, refl, ap}
use native.Mathlib.Omega.{arith}

-- The law for the lowest digit, from the definition that the native operation stands for.
abbrev or_digits : ℕ → ℕ → ℕ → ℕ
or_digits n a b = digits (λ b. b) max n a b

or_digits_fuel : (n m a b : ℕ) → a ≤ n → a ≤ m → or_digits n a b ≡ or_digits m a b
or_digits_fuel zero zero a b p q = refl
or_digits_fuel zero (suc m) zero b p q = refl
or_digits_fuel zero (suc m) (suc a) b p q = absurd (omega arith)
or_digits_fuel (suc n) zero zero b p q = refl
or_digits_fuel (suc n) zero (suc a) b p q = absurd (omega arith)
or_digits_fuel (suc n) (suc m) zero b p q = refl
or_digits_fuel (suc n) (suc m) (suc a) b p q =
    omega (arith, or_digits_fuel n m (suc a / 2) (b / 2) (omega arith) (omega arith))

pub zero-bit_or : (b : ℕ) → bit_or 0 b ≡ b
zero-bit_or b = bit_or-bitwise 0 b

pub bit_or_step : (a b : ℕ) → bit_or a b ≡ bit_or (a / 2) (b / 2) * 2 + max (a % 2) (b % 2)
bit_or_step zero b = omega (arith, zero-bit_or b, zero-bit_or (b / 2))
bit_or_step (suc a) b = omega (
  arith,
  bit_or-bitwise (suc a) b,
  bit_or-bitwise (suc a / 2) (b / 2),
  or_digits_fuel a (suc a / 2) (suc a / 2) (b / 2) (omega arith) (omega arith),
)

-- A low field below 2 ^ k and a high field shifted by k do not meet.
pub bit_or-shift : (k lo hi : ℕ) → lo < 2 ^ k → bit_or lo (2 ^ k * hi) ≡ 2 ^ k * hi + lo
bit_or-shift zero lo hi h =
    let e : lo ≡ 0 = omega arith in rw e (omega (arith, zero-bit_or (1 * hi)))
bit_or-shift (suc k) lo hi h =
    let twice : 2 ^ suc k * hi ≡ 2 ^ k * 2 * hi = ap (λ (t : ℕ). t * hi) (pow-suc 2 k) in
    let half : 2 ^ suc k * hi / 2 ≡ 2 ^ k * hi = omega arith in
    omega (
      arith,
      pow-suc 2 k,
      bit_or_step lo (2 ^ suc k * hi),
      ap (bit_or (lo / 2)) half,
      bit_or-shift k (lo / 2) hi (omega (arith, pow-suc 2 k)),
    )
