-- ===== src/Go/Reads.antt =====
-- A read of an integer from a slice of a buffer, `binary.BigEndian.Uint16(b[i:j])`: with the bytes
-- at hand (`-At`), and on any buffer that is long enough (`-Ensures`).
use deepflow_wasm_go_sdk.Prelude.{ℕ, ◌+◌, ◌^◌, ◌≤◌, ◌<◌, ◌≡◌, ◌++◌, arith, length, drop, All}
use deepflow_wasm_go_sdk.Go.Result.{Result, ok, ◌>>=◌, Ensures, holds, Ensures-bind}
use deepflow_wasm_go_sdk.Go.Slices.{Bytes, IsByte, slice, At, slice-At, slice-Ensures}
use deepflow_wasm_go_sdk.Go.Binary.{
  uint16, uint32, uint64, put_uint16, put_uint32, put_uint64, uint16-put, uint32-put, uint64-put,
  put-uint16, put-uint32, put-uint64,
}

pub read_uint16-At :
    {i : ℕ} {b : Bytes} (v : ℕ) (rest : Bytes) (j : ℕ)
    → At i b (put_uint16 v ++ rest)
    → j ≡ i + 2
    → v < 2 ^ 16
    → (slice b i j >>= uint16) ≡ ok v
read_uint16-At v rest j a e h = rw (slice-At (put_uint16 v) rest j a e) (uint16-put v h)

pub read_uint32-At :
    {i : ℕ} {b : Bytes} (v : ℕ) (rest : Bytes) (j : ℕ)
    → At i b (put_uint32 v ++ rest)
    → j ≡ i + 4
    → v < 2 ^ 32
    → (slice b i j >>= uint32) ≡ ok v
read_uint32-At v rest j a e h = rw (slice-At (put_uint32 v) rest j a e) (uint32-put v h)

pub read_uint64-At :
    {i : ℕ} {b : Bytes} (v : ℕ) (rest : Bytes) (j : ℕ)
    → At i b (put_uint64 v ++ rest)
    → j ≡ i + 8
    → v < 2 ^ 64
    → (slice b i j >>= uint64) ≡ ok v
read_uint64-At v rest j a e h = rw (slice-At (put_uint64 v) rest j a e) (uint64-put v h)

-- An integer reader that inverts `put` on `w` bytes.
module _ (w m : ℕ) (uint : Bytes → Result ℕ) (put : ℕ → Bytes)
    (inverse : (xs : Bytes)
      → length xs ≡ w
      → All IsByte xs
      → (v : ℕ) × (uint xs ≡ ok v) × (v < m) × (xs ≡ put v)) where
  read-Ensures :
      (b : Bytes) (i j : ℕ)
      → j ≡ i + w
      → j ≤ length b
      → All IsByte b
      → Ensures (λ v. At i b (put v ++ drop j b) × (v < m)) (slice b i j >>= uint)
  read-Ensures b i j e h hb = Ensures-bind (slice-Ensures b i j (omega arith) h hb) λ xs (a, l, hx).
      let (v, r, lt, x) = inverse xs (omega arith) hx in rw r (holds (rw x at a, lt))

pub read_uint16-Ensures :
    (b : Bytes) (i j : ℕ)
    → j ≡ i + 2
    → j ≤ length b
    → All IsByte b
    → Ensures (λ v. At i b (put_uint16 v ++ drop j b) × (v < 2 ^ 16)) (slice b i j >>= uint16)
read_uint16-Ensures = read-Ensures 2 (2 ^ 16) uint16 put_uint16 put-uint16

pub read_uint32-Ensures :
    (b : Bytes) (i j : ℕ)
    → j ≡ i + 4
    → j ≤ length b
    → All IsByte b
    → Ensures (λ v. At i b (put_uint32 v ++ drop j b) × (v < 2 ^ 32)) (slice b i j >>= uint32)
read_uint32-Ensures = read-Ensures 4 (2 ^ 32) uint32 put_uint32 put-uint32

pub read_uint64-Ensures :
    (b : Bytes) (i j : ℕ)
    → j ≡ i + 8
    → j ≤ length b
    → All IsByte b
    → Ensures (λ v. At i b (put_uint64 v ++ drop j b) × (v < 2 ^ 64)) (slice b i j >>= uint64)
read_uint64-Ensures = read-Ensures 8 (2 ^ 64) uint64 put_uint64 put-uint64
