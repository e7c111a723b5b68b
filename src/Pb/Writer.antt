-- ===== src/Pb/Writer.antt =====
-- The way in which the MarshalToSizedBufferVT methods write: from the end of the buffer `dAtA` to its
-- front, with `i` the position of what was written last. `Prepends w xs` says that `w` writes `xs`
-- in front of it.
use deepflow_wasm_go_sdk.Prelude.{
  ℕ, ◌+◌, ◌-◌, ◌≤◌, ◌≡◌, refl, Option, none, some, List, [], ◌∷◌, ◌++◌, append-nil, append_assoc,
  arith, leb, le→leb, if◌then◌else◌, length, take, drop, length-append, length-take,
  take-append-drop, take-take, drop_all,
}
use deepflow_wasm_go_sdk.Go.Result.{Result, ok, panic, ◌>>=◌}
use deepflow_wasm_go_sdk.Go.Slices.{Bytes}
use deepflow_wasm_go_sdk.Go.Copy.{overwrite, overwrite_before, length-overwrite}

-- The new contents of `dAtA` and the new `i`.
abbrev pub Writer : Type 0
Writer = Bytes → ℕ → Result (Bytes × ℕ)

-- MarshalToSizedBufferVT: the new contents of the buffer, and how many bytes at its end were written.
abbrev pub Marshal : Type 0
Marshal = Bytes → Result (Bytes × ℕ)

abbrev pub skip : Writer
skip buf i = ok (buf, i)

infixl 30 ◌⨟◌
abbrev pub ◌⨟◌ : Writer → Writer → Writer
◌⨟◌ v w buf i = v buf i >>= λ (buf', j). w buf' j

-- i -= len(s); copy(dAtA[i:], s)
unfoldable pub put_bytes : Bytes → Writer
put_bytes s buf i =
    if leb (length s) i then ok (overwrite buf (i - length s) s, i - length s) else panic

-- i--; dAtA[i] = c
unfoldable pub put_byte : ℕ → Writer
unfolding put_bytes
put_byte c = put_bytes (c ∷ [])

-- i := len(dAtA); ...; return len(dAtA) - i
unfoldable pub sized : Writer → Marshal
sized w buf = w buf (length buf) >>= λ (buf', i). ok (buf', length buf - i)

-- size, err := m.MarshalToSizedBufferVT(dAtA[:i]); i -= size
unfoldable pub nested : Marshal → (ℕ → Writer) → Writer
nested marshal header buf i =
    marshal (take i buf) >>= λ (sub, size). header size (sub ++ drop i buf) (i - size)

-- for iNdEx := len(xs) - 1; iNdEx >= 0; iNdEx--
unfoldable pub put_each : {A : Type 0} → (A → Writer) → List A → Writer
put_each f [] = skip
put_each f (x ∷ xs) = put_each f xs ⨟ f x

-- if the field is set
unfoldable pub put_option : {A : Type 0} → (A → Writer) → Option A → Writer
put_option f none = skip
put_option f (some a) = f a

pub record Prepends (w : Writer) (xs : Bytes) : Type 0 where
  pub run :
      (buf : Bytes) (i : ℕ)
      → length xs ≤ i
      → i ≤ length buf
      → w buf i ≡ ok (overwrite buf (i - length xs) xs, i - length xs)

overwrite_nil : (buf : Bytes) (i j : ℕ) → j ≡ i + 0 → take i buf ++ drop j buf ≡ buf
overwrite_nil buf i j e = let same : j ≡ i = omega arith in rw same (take-append-drop i buf)

pub skip-Prepends : Prepends skip []
skip-Prepends = record {
  run = λ buf i h k.
      let same : i - 0 ≡ i = omega arith in rw (same, overwrite_nil buf i (i + 0) refl);
}

pub put_bytes-Prepends : (s : Bytes) → Prepends (put_bytes s) s
unfolding put_bytes
put_bytes-Prepends s = record { run = λ buf i h k. rw (le→leb (length s) i h) }

pub put_byte-Prepends : (c : ℕ) → Prepends (put_byte c) (c ∷ [])
unfolding put_byte
put_byte-Prepends c = put_bytes-Prepends (c ∷ [])

-- Two writers in a row: what the second writes stands in front.
infixl 30 ◌▷◌
pub ◌▷◌ :
    {v w : Writer} {xs ys : Bytes} → Prepends v xs → Prepends w ys → Prepends (v ⨟ w) (ys ++ xs)
◌▷◌ {v} {w} {xs} {ys} p q = record {
  run = λ buf i h k.
      let len : length (ys ++ xs) ≡ length ys + length xs = length-append ys xs in
      let j : ℕ = i - length xs in
      let kept = length-overwrite buf j xs (omega arith) in
      let same : j - length ys ≡ i - length (ys ++ xs) = omega arith in
      rw (
        p.run buf i (omega arith) k,
        q.run (overwrite buf j xs) j (omega arith) (omega arith),
        same,
        overwrite_before buf (i - length (ys ++ xs)) j ys xs (omega arith) (omega arith),
      );
}

-- The bytes of an optional field and of a repeated one.
abbrev pub option_bytes : {A : Type 0} → (A → Bytes) → Option A → Bytes
option_bytes f none = []
option_bytes f (some a) = f a

abbrev pub each_bytes : {A : Type 0} → (A → Bytes) → List A → Bytes
each_bytes f [] = []
each_bytes f (x ∷ xs) = f x ++ each_bytes f xs

module _ {A : Type 0} {w : A → Writer} {f : A → Bytes} (p : (a : A) → Prepends (w a) (f a)) where
  pub put_option-Prepends : (o : Option A) → Prepends (put_option w o) (option_bytes f o)
  unfolding put_option
  put_option-Prepends none = skip-Prepends
  put_option-Prepends (some a) = p a

  pub put_each-Prepends : (xs : List A) → Prepends (put_each w xs) (each_bytes f xs)
  unfolding put_each
  put_each-Prepends [] = skip-Prepends
  put_each-Prepends (x ∷ xs) = put_each-Prepends xs ▷ p x

-- A marshaller that writes `xs` at the end of every buffer that has the room.
pub record Encodes (marshal : Marshal) (xs : Bytes) : Type 0 where
  pub run :
      (buf : Bytes)
      → length xs ≤ length buf
      → marshal buf ≡ ok (overwrite buf (length buf - length xs) xs, length xs)

pub sized-Encodes : {w : Writer} {xs : Bytes} → Prepends w xs → Encodes (sized w) xs
unfolding sized
sized-Encodes {w} {xs} p = record {
  run = λ buf h.
      let n : length buf - (length buf - length xs) ≡ length xs = omega arith in
      rw (p.run buf (length buf) h (omega arith), n);
}

-- The buffer of a nested marshaller is the part of `dAtA` in front of `i`.
overwrite_part :
    (buf : Bytes) (i k : ℕ) (xs : Bytes)
    → i ≡ k + length xs
    → i ≤ length buf
    → overwrite (take i buf) k xs ++ drop i buf ≡ overwrite buf k xs
overwrite_part buf i k xs e h = rw (
  take-take k i buf (omega arith),
  drop_all (k + length xs) (take i buf) (omega (arith, length-take i buf h)),
  append-nil xs,
  append_assoc (take k buf) xs (drop i buf),
  e,
)

pub nested-Prepends :
    {marshal : Marshal} (header : ℕ → Writer) {xs hs : Bytes}
    → Encodes marshal xs
    → Prepends (header (length xs)) hs
    → Prepends (nested marshal header) (hs ++ xs)
unfolding nested
nested-Prepends {marshal} header {xs} {hs} m p = record {
  run = λ buf i h k.
      let len : length (hs ++ xs) ≡ length hs + length xs = length-append hs xs in
      let j : ℕ = i - length xs in
      let room : length (take i buf) ≡ i = length-take i buf k in
      let kept = length-overwrite buf j xs (omega arith) in
      let same : j - length hs ≡ i - length (hs ++ xs) = omega arith in
      rw (
        m.run (take i buf) (omega arith),
        room,
        overwrite_part buf i j xs (omega arith) k,
        p.run (overwrite buf j xs) j (omega arith) (omega arith),
        same,
        overwrite_before buf (i - length (hs ++ xs)) j hs xs (omega arith) (omega arith),
      );
}
