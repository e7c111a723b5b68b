-- ===== src/Go/Ints.antt =====
-- An int of 32 bits, as TinyGo's WebAssembly has it, by its bit pattern: a number below 2^32.
use deepflow_wasm_go_sdk.Prelude.{
  ℕ, ◌+◌, ◌-◌, ◌%◌, ◌^◌, ◌≤◌, ◌<◌, ◌≡◌, Bool, true, false, arith, ltb, lt→ltb, le→not_ltb,
  if◌then◌else◌, Bool-cases, inl, inr, ltb→lt, not_ltb→le, ◌∙◌,
}
use deepflow_wasm_go_sdk.Prelude.Int.{ℤ, pos, negsuc}
use deepflow_wasm_go_sdk.Go.Result.{Result, panic}
use deepflow_wasm_go_sdk.Go.Slices.{Bytes, slice, slice_backwards}

-- The integer of a bit pattern.
abbrev pub signed : ℕ → ℤ
signed n = if ltb n (2 ^ 31) then pos n else negsuc (2 ^ 32 - 1 - n)

abbrev pub exceeds : ℤ → ℕ → Bool
exceeds (pos m) n = ltb n m
exceeds (negsuc m) n = false

abbrev pub below : ℤ → ℕ → Bool
below (pos m) n = ltb m n
below (negsuc m) n = true

-- b[i:j], with bounds that may be negative
abbrev slice_bounds : Bytes → ℤ → ℤ → Result Bytes
slice_bounds b (pos i) (pos j) = slice b i j
slice_bounds b (pos i) (negsuc j) = panic
slice_bounds b (negsuc i) z = panic

-- b[i:j], with the bounds as bit patterns
unfoldable pub slice_int : Bytes → ℕ → ℕ → Result Bytes
slice_int b i j = slice_bounds b (signed i) (signed j)

pub slice_int_pos : (b : Bytes) (i j : ℕ) → i < 2 ^ 31 → j < 2 ^ 31 → slice_int b i j ≡ slice b i j
unfolding slice_int
slice_int_pos b i j hi hj = rw (lt→ltb i (2 ^ 31) hi, lt→ltb j (2 ^ 31) hj)

pub slice_int_neg : (b : Bytes) (i j : ℕ) → i < 2 ^ 31 → 2 ^ 31 ≤ j → slice_int b i j ≡ panic
unfolding slice_int
slice_int_neg b i j hi hj = rw (lt→ltb i (2 ^ 31) hi, le→not_ltb (2 ^ 31) j hj)

-- A sum of 2^31 or more that is below `n` behind 2^32 does not exceed `n`.
pub overflow_passes :
    (m n : ℕ) → m < 2 ^ 32 + n → 2 ^ 31 ≤ m → n < 2 ^ 31 → exceeds (signed (m % 2 ^ 32)) n ≡ false
overflow_passes m n h over small = ground arith

-- A slice expression of `v` bytes from `i` on panics where its end is 2^31 or more.
pub slice_overflow :
    (b : Bytes) (i v : ℕ)
    → i < 2 ^ 31
    → v < 2 ^ 32
    → 2 ^ 31 ≤ i + v
    → slice_int b i ((i + v) % 2 ^ 32) ≡ panic
slice_overflow b i v hi hv over = elim (Bool-cases (ltb ((i + v) % 2 ^ 32) (2 ^ 31))) [
  | inl e ↦
      let j = ltb→lt ((i + v) % 2 ^ 32) (2 ^ 31) e in
      slice_int_pos b i ((i + v) % 2 ^ 32) hi j
      ∙ slice_backwards b i ((i + v) % 2 ^ 32) (omega arith)
  | inr e ↦ slice_int_neg b i ((i + v) % 2 ^ 32) hi (not_ltb→le (2 ^ 31) ((i + v) % 2 ^ 32) e)
]
