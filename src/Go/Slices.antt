-- ===== src/Go/Slices.antt =====
-- Slices of bytes. An index or a slice expression out of range panics. The bound of a slice
-- expression is taken to be the length; Go takes the capacity, which is no smaller.
use deepflow_wasm_go_sdk.Prelude.{
  ℕ, zero, suc, ◌+◌, ◌-◌, ◌≤◌, ◌<◌, ◌≡◌, refl, sym, ap, ◌∙◌, ◌&&◌, Option, none, some, List, [],
  ◌∷◌, ◌++◌, arith, leb, le→leb, if◌then◌else◌, length, get_elem?, take, drop, length-append,
  length-drop, length-take, take_all, take-append-drop, take-append_self, drop-append_self,
  drop-drop, All, All-take, All-drop,
}
use deepflow_wasm_go_sdk.Go.Result.{Result, ok, panic, Ensures, holds}

abbrev pub Bytes : Type 0
Bytes = List ℕ

abbrev pub IsByte : ℕ → Type 0
IsByte b = b < 256

abbrev or_panic {ℓ} : {A : Type ℓ} → Option A → Result A
or_panic none = panic
or_panic (some a) = ok a

-- b[i]
unfoldable pub index : Bytes → ℕ → Result ℕ
index b i = or_panic (get_elem? b i)

-- b[i:j]
unfoldable pub slice : Bytes → ℕ → ℕ → Result Bytes
slice b i j = if leb i j && leb j (length b) then ok (take (j - i) (drop i b)) else panic

-- A slice expression whose bounds are in the wrong order panics.
pub slice_backwards : (b : Bytes) (i j : ℕ) → j < i → slice b i j ≡ panic
unfolding slice
slice_backwards b i j h = ground arith

-- One that ends past the end panics.
pub slice_past : (b : Bytes) (i j : ℕ) → length b < j → slice b i j ≡ panic
unfolding slice
slice_past b i j h = ground arith

pub slice_front : (b : Bytes) (n : ℕ) → n ≤ length b → slice b 0 n ≡ ok (take n b)
unfolding slice
slice_front b n h =
    let same : n - 0 ≡ n = omega arith in rw (le→leb 0 n (omega arith), le→leb n (length b) h, same)

pub slice_back : (b : Bytes) (i : ℕ) → i ≤ length b → slice b i (length b) ≡ ok (drop i b)
unfolding slice
slice_back b i h = rw (
  le→leb i (length b) h,
  le→leb (length b) (length b) (omega arith),
  take_all (length b - i) (drop i b) (omega (arith, length-drop i b)),
)

-- From position `i` on, `b` holds `rest`.
pub record At (i : ℕ) (b rest : Bytes) : Type 0 where
  pub within : i ≤ length b
  pub suffix : drop i b ≡ rest

pub At-start : (b : Bytes) → At 0 b b
At-start b = record { within = omega arith; suffix = refl }

pub At-skip :
    {i : ℕ} {b : Bytes} (xs : Bytes) {rest : Bytes} (j : ℕ)
    → At i b (xs ++ rest)
    → j ≡ i + length xs
    → At j b rest
At-skip {i} {b} xs {rest} j a h = record {
  within = omega (arith, a.within, length-drop i b, ap length a.suffix, length-append xs rest);
  suffix =
      sym (drop-drop i (length xs) j b h) ∙ rw a.suffix (drop-append_self xs rest (length xs) refl);
}

pub length-At : {i : ℕ} {b rest : Bytes} → At i b rest → length b ≡ i + length rest
length-At {i} {b} a = omega (arith, a.within, length-drop i b, ap length a.suffix)

pub slice-At :
    {i : ℕ} {b : Bytes} (xs rest : Bytes) (j : ℕ)
    → At i b (xs ++ rest)
    → j ≡ i + length xs
    → slice b i j ≡ ok xs
unfolding slice
slice-At {i} {b} xs rest j a h =
    let n : j - i ≡ length xs = omega arith in
    rw (
      le→leb i j (omega arith),
      le→leb j (length b) (omega (arith, length-At a, length-append xs rest)),
      n,
      a.suffix,
      take-append_self xs rest (length xs) refl,
    )

get_elem?-drop :
    (i : ℕ) (b : Bytes) (x : ℕ) (rest : Bytes) → drop i b ≡ x ∷ rest → get_elem? b i ≡ some x
get_elem?-drop zero [] x rest e = cc
get_elem?-drop zero (y ∷ b) x rest e = cc
get_elem?-drop (suc i) [] x rest e = cc
get_elem?-drop (suc i) (y ∷ b) x rest e = get_elem?-drop i b x rest e

pub index-At : {i : ℕ} {b : Bytes} (x : ℕ) {rest : Bytes} → At i b (x ∷ rest) → index b i ≡ ok x
unfolding index
index-At {i} {b} x {rest} a = rw (get_elem?-drop i b x rest a.suffix)

-- A slice in range does not panic, and what it returns stands there.
pub slice-Ensures :
    (b : Bytes) (i j : ℕ)
    → i ≤ j
    → j ≤ length b
    → All IsByte b
    → Ensures (λ xs. At i b (xs ++ drop j b) × (length xs ≡ j - i) × All IsByte xs) (slice b i j)
unfolding slice
slice-Ensures b i j h k hb =
    rw (le→leb i j h, le→leb j (length b) k)
      (holds (
        record {
          within = omega arith;
          suffix =
              sym (take-append-drop (j - i) (drop i b))
              ∙ ap (λ t. take (j - i) (drop i b) ++ t) (drop-drop i (j - i) j b (omega arith));
        },
        length-take (j - i) (drop i b) (omega (arith, length-drop i b)),
        All-take IsByte (j - i) (drop i b) (All-drop IsByte i b hb),
      ))

index_found :
    (b : Bytes) (i : ℕ)
    → i < length b
    → All IsByte b
    → (x : ℕ) × (get_elem? b i ≡ some x) × (drop i b ≡ x ∷ drop (suc i) b) × (x < 256)
index_found [] i h hb = absurd (omega arith)
index_found (x ∷ b) zero h (hx, hb) = (x, refl, refl, hx)
index_found (x ∷ b) (suc i) h (hx, hb) = index_found b i (omega arith) hb

pub index-Ensures :
    (b : Bytes) (i j : ℕ)
    → j ≡ suc i
    → i < length b
    → All IsByte b
    → Ensures (λ x. At i b (x ∷ drop j b) × (x < 256)) (index b i)
unfolding index
index-Ensures b i j step h hb =
    let (x, e, d, hx) = index_found b i h hb in
    rw (e, step) (holds (record { within = omega arith; suffix = d }, hx))
