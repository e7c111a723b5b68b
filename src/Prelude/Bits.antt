-- ===== src/Prelude/Bits.antt =====
-- The binary digits of `bit_or`.
use Prim.Native.Nat.{
  ℕ, zero, suc, ◌+◌, ◌*◌, ◌/◌, ◌%◌, ◌^◌, ◌≤◌, ◌<◌, max, bit_or, digits, bit_or-bitwise,
}
use mathlib.Core.Path.{◌≡◌, refl}
use native.Mathlib.Omega.{arith}

abbrev or_digits : ℕ → ℕ → ℕ → ℕ
or_digits n a b = digits (λ b. b) max n a b

or_digits_fuel : (n m a b : ℕ) → a ≤ n → a ≤ m → or_digits n a b ≡ or_digits m a b
or_digits_fuel zero zero a b p q = refl
or_digits_fuel zero (suc m) zero b p q = refl
or_digits_fuel zero (suc m) (suc a) b p q = absurd (omega arith)
or_digits_fuel (suc n) zero zero b p q = refl
or_digits_fuel (suc n) zero (suc a) b p q = absurd (omega arith)
or_digits_fuel (suc n) (suc m) zero b p q = refl
or_digits_fuel (suc n) (suc m) (suc a) b p q =
    omega (arith, or_digits_fuel n m (suc a / 2) (b / 2) (omega arith) (omega arith))

zero-bit_or : (b : ℕ) → bit_or 0 b ≡ b
zero-bit_or b = bit_or-bitwise 0 b

-- The law for the lowest digit.
pub bit_or_step : (a b : ℕ) → bit_or a b ≡ bit_or (a / 2) (b / 2) * 2 + max (a % 2) (b % 2)
bit_or_step zero b = omega (arith, zero-bit_or b, zero-bit_or (b / 2))
bit_or_step (suc a) b = omega (
  arith,
  bit_or-bitwise (suc a) b,
  bit_or-bitwise (suc a / 2) (b / 2),
  or_digits_fuel a (suc a / 2) (suc a / 2) (b / 2) (omega arith) (omega arith),
)

-- The k-th binary digit.
unfoldable pub bit : ℕ → ℕ → ℕ
bit zero n = n % 2
bit (suc k) n = bit k (n / 2)

pub bit-bit_or : (k a b : ℕ) → bit k (bit_or a b) ≡ max (bit k a) (bit k b)
unfolding bit
bit-bit_or zero a b = omega (arith, bit_or_step a b)
bit-bit_or (suc k) a b =
    let half : bit_or a b / 2 ≡ bit_or (a / 2) (b / 2) = omega (arith, bit_or_step a b) in
    rw half (bit-bit_or k (a / 2) (b / 2))

bit_or-zero_fuel : (n a : ℕ) → a ≤ n → bit_or a 0 ≡ a
bit_or-zero_fuel n zero h = refl
bit_or-zero_fuel zero (suc a) h = absurd (omega arith)
bit_or-zero_fuel (suc n) (suc a) h =
    omega (arith, bit_or_step (suc a) 0, bit_or-zero_fuel n (suc a / 2) (omega arith))

or_double : (e d n m : ℕ) → e ≡ d * 2 → m ≡ n / 2 → bit_or e n ≡ bit_or d m * 2 + n % 2
or_double e d n m p q =
    let half : e / 2 ≡ d = omega arith in
    let step : bit_or e n ≡ bit_or d m * 2 + max (e % 2) (n % 2) =
      rw (← half, q) (bit_or_step e n) in
    omega (arith, step)

-- Where the digits of the two numbers do not meet, it is the sum.
pub bit_or-byte : (d n : ℕ) → n < 2 ^ 8 → bit_or (d * 2 ^ 8) n ≡ d * 2 ^ 8 + n
bit_or-byte d n h =
    let gone : n / 128 / 2 ≡ 0 = omega arith in
    omega (
      arith,
      or_double (d * 256) (d * 128) n (n / 2) (omega arith) refl,
      or_double (d * 128) (d * 64) (n / 2) (n / 4) (omega arith) (omega arith),
      or_double (d * 64) (d * 32) (n / 4) (n / 8) (omega arith) (omega arith),
      or_double (d * 32) (d * 16) (n / 8) (n / 16) (omega arith) (omega arith),
      or_double (d * 16) (d * 8) (n / 16) (n / 32) (omega arith) (omega arith),
      or_double (d * 8) (d * 4) (n / 32) (n / 64) (omega arith) (omega arith),
      or_double (d * 4) (d * 2) (n / 64) (n / 128) (omega arith) (omega arith),
      or_double (d * 2) d (n / 128) 0 (omega arith) (omega arith),
      bit_or-zero_fuel d d (omega arith),
    )
