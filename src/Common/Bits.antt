-- ===== src/Common/Bits.antt =====
-- `|` of two numbers that share no binary digit is their sum.
use Prim.Native.Nat.{
  ℕ, zero, suc, ◌+◌, ◌*◌, ◌/◌, ◌%◌, ◌^◌, ◌≤◌, ◌<◌, max, bit_or, digits, bit_or-bitwise,
}
use mathlib.Core.Path.{◌≡◌, refl, ap}
use native.Mathlib.Omega.{arith}
use native.Mathlib.Nat.{pow-suc}

abbrev or_digits : ℕ → ℕ → ℕ → ℕ
or_digits n a b = digits (λ y. y) max n a b

-- Any two amounts of fuel that cover `a` give the same digits.
or_digits_agree : (n m a b : ℕ) → a ≤ n → a ≤ m → or_digits n a b ≡ or_digits m a b
or_digits_agree zero zero a b p q = refl
or_digits_agree zero (suc m) zero b p q = refl
or_digits_agree zero (suc m) (suc a) b p q = absurd (omega arith)
or_digits_agree (suc n) zero zero b p q = refl
or_digits_agree (suc n) zero (suc a) b p q = absurd (omega arith)
or_digits_agree (suc n) (suc m) zero b p q = refl
or_digits_agree (suc n) (suc m) (suc a) b p q =
    omega (arith, or_digits_agree n m (suc a / 2) (b / 2) (omega arith) (omega arith))

pub zero-bit_or : (b : ℕ) → bit_or 0 b ≡ b
zero-bit_or b = bit_or-bitwise 0 b

bit_or_halves : (m n : ℕ) → bit_or m n ≡ max (m % 2) (n % 2) + 2 * bit_or (m / 2) (n / 2)
bit_or_halves zero n = omega (arith, zero-bit_or n, zero-bit_or (n / 2))
bit_or_halves (suc a) b = omega (
  arith,
  bit_or-bitwise (suc a) b,
  bit_or-bitwise (suc a / 2) (b / 2),
  or_digits_agree a (suc a / 2) (suc a / 2) (b / 2) (omega arith) (omega arith),
)

shifted_suc : (b k : ℕ) → b * 2 ^ suc k ≡ 2 * (b * 2 ^ k)
shifted_suc b k = omega (arith, ap (λ (t : ℕ). b * t) (pow-suc 2 k))

-- `a | (b << k)` is a sum when `a` has at most `k` binary digits.
pub bit_or_shifted : (k a b : ℕ) → a < 2 ^ k → bit_or a (b * 2 ^ k) ≡ a + b * 2 ^ k
bit_or_shifted zero zero b h = ground (arith, zero-bit_or (b * 2 ^ 0))
bit_or_shifted zero (suc a) b h = absurd (omega arith)
bit_or_shifted (suc k) a b h = ground (
  arith,
  bit_or_halves a (b * 2 ^ suc k),
  shifted_suc b k,
  pow-suc 2 k,
  bit_or_shifted k (a / 2) b (omega arith),
)
