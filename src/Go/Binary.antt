-- ===== src/Go/Binary.antt =====
-- encoding/binary: the big-endian and little-endian unsigned integers.
use deepflow_wasm_go_sdk.Prelude.{
  ℕ, ◌+◌, ◌*◌, ◌/◌, ◌%◌, ◌^◌, ◌<◌, ◌≡◌, refl, sym, ap, ap₂, [], ◌∷◌, ◌++◌, arith, length, All,
}
use deepflow_wasm_go_sdk.Go.Result.{Result, ok, panic}
use deepflow_wasm_go_sdk.Go.Slices.{Bytes, IsByte}

abbrev pub be16 : ℕ → ℕ → ℕ
be16 a b = a * 256 + b

abbrev pub be32 : ℕ → ℕ → ℕ → ℕ → ℕ
be32 a b c d = be16 a b * 2 ^ 16 + be16 c d

-- binary.BigEndian.Uint16, Uint32 and Uint64: they look at the first bytes, and panic without them.
unfoldable pub uint16 : Bytes → Result ℕ
uint16 (a ∷ b ∷ _) = ok (be16 a b)
uint16 _ = panic

unfoldable pub uint32 : Bytes → Result ℕ
uint32 (a ∷ b ∷ c ∷ d ∷ _) = ok (be32 a b c d)
uint32 _ = panic

unfoldable pub uint64 : Bytes → Result ℕ
uint64 (a ∷ b ∷ c ∷ d ∷ e ∷ f ∷ g ∷ h ∷ _) = ok (be32 a b c d * 2 ^ 32 + be32 e f g h)
uint64 _ = panic

-- binary.LittleEndian.Uint32
unfoldable pub le_uint32 : Bytes → Result ℕ
le_uint32 (a ∷ b ∷ c ∷ d ∷ _) = ok (be32 d c b a)
le_uint32 _ = panic

-- The bytes of a little-endian uint32.
abbrev pub le_bytes : ℕ → Bytes
le_bytes v = (v % 256) ∷ (v / 256 % 256) ∷ (v / 2 ^ 16 % 256) ∷ (v / 2 ^ 24 % 256) ∷ []

-- The bytes that PutUint16 and PutUint64 write.
abbrev pub put_uint16 : ℕ → Bytes
put_uint16 v = (v / 256 % 256) ∷ (v % 256) ∷ []

abbrev pub put_uint32 : ℕ → Bytes
put_uint32 v = put_uint16 (v / 2 ^ 16) ++ put_uint16 v

abbrev pub put_uint64 : ℕ → Bytes
put_uint64 v = put_uint32 (v / 2 ^ 32) ++ put_uint32 v

pub le_uint32-le_bytes : (v : ℕ) → v < 2 ^ 32 → le_uint32 (le_bytes v) ≡ ok v
unfolding le_uint32
le_uint32-le_bytes v h = ap ok (omega arith)

pub uint16-put : (v : ℕ) → v < 2 ^ 16 → uint16 (put_uint16 v) ≡ ok v
unfolding uint16
uint16-put v h = ap ok (omega arith)

be32-put :
    (v : ℕ)
    → be32 (v / 2 ^ 16 / 256 % 256) (v / 2 ^ 16 % 256) (v / 256 % 256) (v % 256) ≡ v % 2 ^ 32
be32-put v = omega arith

pub uint32-put : (v : ℕ) → v < 2 ^ 32 → uint32 (put_uint32 v) ≡ ok v
unfolding uint32
uint32-put v h = ap ok (omega (arith, be32-put v))

pub uint64-put : (v : ℕ) → v < 2 ^ 64 → uint64 (put_uint64 v) ≡ ok v
unfolding uint64
uint64-put v h = ap ok (omega (arith, be32-put (v / 2 ^ 32), be32-put v))

-- Reading bytes of the right number gives a number whose encoding they are.
pub put-uint16 :
    (xs : Bytes)
    → length xs ≡ 2
    → All IsByte xs
    → (v : ℕ) × (uint16 xs ≡ ok v) × (v < 2 ^ 16) × (xs ≡ put_uint16 v)
unfolding uint16
put-uint16 (a ∷ b ∷ []) h (ha, (hb, _)) = (be16 a b, refl, omega arith, bytes)
  where
    bytes : a ∷ b ∷ [] ≡ put_uint16 (be16 a b)
    bytes = ground arith
put-uint16 [] h hs = absurd (omega arith)
put-uint16 (a ∷ []) h hs = absurd (omega arith)
put-uint16 (a ∷ b ∷ c ∷ xs) h hs = absurd (omega arith)

bytes-be32 :
    (a b c d q v : ℕ)
    → v ≡ q * 2 ^ 32 + be32 a b c d
    → a < 256
    → b < 256
    → c < 256
    → d < 256
    → put_uint32 v ≡ a ∷ b ∷ c ∷ d ∷ []
bytes-be32 a b c d q v e ha hb hc hd = ground arith

pub put-uint32 :
    (xs : Bytes)
    → length xs ≡ 4
    → All IsByte xs
    → (v : ℕ) × (uint32 xs ≡ ok v) × (v < 2 ^ 32) × (xs ≡ put_uint32 v)
unfolding uint32
put-uint32 (a ∷ b ∷ c ∷ d ∷ []) h (ha, (hb, (hc, (hd, _)))) =
    (be32 a b c d, refl, omega arith, sym (bytes-be32 a b c d 0 _ (omega arith) ha hb hc hd))
put-uint32 (a ∷ b ∷ c ∷ d ∷ e ∷ xs) h hs = absurd (omega arith)
put-uint32 [] h hs = absurd (omega arith)
put-uint32 (a ∷ []) h hs = absurd (omega arith)
put-uint32 (a ∷ b ∷ []) h hs = absurd (omega arith)
put-uint32 (a ∷ b ∷ c ∷ []) h hs = absurd (omega arith)

pub put-uint64 :
    (xs : Bytes)
    → length xs ≡ 8
    → All IsByte xs
    → (v : ℕ) × (uint64 xs ≡ ok v) × (v < 2 ^ 64) × (xs ≡ put_uint64 v)
unfolding uint64
put-uint64 (a ∷ b ∷ c ∷ d ∷ e ∷ f ∷ g ∷ i ∷ []) h
      (ha, (hb, (hc, (hd, (he, (hf, (hg, (hi, _)))))))) =
    let hi32 : ℕ = be32 a b c d in
    let lo32 : ℕ = be32 e f g i in
    let small : lo32 < 2 ^ 32 = omega arith in
    (
      hi32 * 2 ^ 32 + lo32,
      refl,
      omega arith,
      sym (
          ap₂ (λ s t. s ++ t) (bytes-be32 a b c d 0 _ (omega arith) ha hb hc hd)
            (bytes-be32 e f g i hi32 _ refl he hf hg hi)),
    )
put-uint64 [] h hs = absurd (omega arith)
put-uint64 (a ∷ []) h hs = absurd (omega arith)
put-uint64 (a ∷ b ∷ []) h hs = absurd (omega arith)
put-uint64 (a ∷ b ∷ c ∷ []) h hs = absurd (omega arith)
put-uint64 (a ∷ b ∷ c ∷ d ∷ []) h hs = absurd (omega arith)
put-uint64 (a ∷ b ∷ c ∷ d ∷ e ∷ []) h hs = absurd (omega arith)
put-uint64 (a ∷ b ∷ c ∷ d ∷ e ∷ f ∷ []) h hs = absurd (omega arith)
put-uint64 (a ∷ b ∷ c ∷ d ∷ e ∷ f ∷ g ∷ []) h hs = absurd (omega arith)
put-uint64 (a ∷ b ∷ c ∷ d ∷ e ∷ f ∷ g ∷ i ∷ j ∷ xs) h hs = absurd (omega arith)
