-- ===== src/Prelude/Int.antt =====
-- Signed integers over the native numbers, and the conversions of Go between integer types.
use Prim.Native.Nat.{ℕ, ◌-◌, ◌%◌, ◌^◌}
use mathlib.Core.Bool.{Bool, true, false}

-- `negsuc n` is -(n + 1).
pub data ℤ : Type 0 where
  pos : ℕ → ℤ
  negsuc : ℕ → ℤ

-- The conversion of a signed integer to an unsigned type with `m` values: two's complement.
abbrev pub wrap : ℕ → ℤ → ℕ
wrap m (pos n) = n % m
wrap m (negsuc n) = m - 1 - n % m

abbrev pub to_uint32 : ℤ → ℕ
to_uint32 z = wrap (2 ^ 32) z

abbrev pub to_uint64 : ℤ → ℕ
to_uint64 z = wrap (2 ^ 64) z

abbrev pub is_neg : ℤ → Bool
is_neg (pos n) = false
is_neg (negsuc n) = true
