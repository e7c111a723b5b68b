-- ===== src/Pb/Unmarshal/Field.antt =====
-- A round of UnmarshalVT on a field that holds a string or bytes.
use deepflow_wasm_go_sdk.Prelude.{
  ℕ, zero, suc, ◌+◌, ◌-◌, ◌*◌, ◌/◌, ◌%◌, ◌^◌, ◌≤◌, ◌<◌, ◌≡◌, ◌||◌, ◌≢◌, false, lt→ltb, refl, some,
  [], ◌∷◌, ◌++◌, arith, length, length-append, take-append_self, drop-append_self, Bool-cases, inl,
  inr, if◌then◌else◌, leb, ltb, ◌==◌,
}
use deepflow_wasm_go_sdk.Go.Slices.{Bytes}
use deepflow_wasm_go_sdk.Pb.Varint.{Varint}
use deepflow_wasm_go_sdk.Pb.Unmarshal.{Skip, got, read_groups, take_counted, go_on, Fields, round}

-- The base 128 varint of a number: groups of seven bits, the lowest first, with the top bit set on all
-- but the last. There are `k` groups at most in front of the last.
abbrev groups : ℕ → ℕ → Bytes
groups zero v = v ∷ []
groups (suc k) v = if ltb v 128 then v ∷ [] else (v % 128 + 128) ∷ groups k (v / 128)

abbrev pub varint_groups : ℕ → Bytes
varint_groups v = groups 9 v

-- The encoding of protohelpers is the base 128 varint of a uint64.
abbrev pub IsBase128 : Varint → Type 0
IsBase128 v = (n : ℕ) → n < 2 ^ 64 → v.varint n ≡ varint_groups n

abbrev limit : ℕ → ℕ
limit zero = 128
limit (suc k) = limit k * 128

read_groups-groups :
    (k v : ℕ) (rest : Bytes) → v < limit k → read_groups (suc k) (groups k v ++ rest) ≡ got v rest
unfolding read_groups
read_groups-groups zero v rest h = ground arith
read_groups-groups (suc k) v rest h = elim (Bool-cases (ltb v 128)) [
  | inl e ↦ rw (e, e) refl
  | inr e ↦
      let last : ltb (v % 128 + 128) 128 ≡ false = ground arith in
      let value : (v % 128 + 128) % 128 + 128 * (v / 128) ≡ v = omega arith in
      rw (e, last, read_groups-groups k (v / 128) rest (omega arith), value)
]

read_groups-one : (t : ℕ) (rest : Bytes) → t < 128 → read_groups 10 (t ∷ rest) ≡ got t rest
unfolding read_groups
read_groups-one t rest h = rw (lt→ltb t 128 h)

take_counted_fits :
    (l : ℕ) (str rest : Bytes)
    → length (str ++ rest) ≤ l
    → l < 2 ^ 31
    → take_counted l (got (length str) (str ++ rest)) ≡ got str rest
unfolding take_counted
take_counted_fits l str rest fits hl =
    let n : ℕ = length str in
    let len = length-append str rest in
    let same : n % 2 ^ 32 ≡ n = omega arith in
    let off : ℕ = l - length (str ++ rest) in
    let valid : (leb (2 ^ 31) n || leb (2 ^ 31) (off + n)) ≡ false = ground arith in
    let inside : ltb l (off + n) ≡ false = ground arith in
    rw (same, valid, inside, take-append_self str rest n refl, drop-append_self str rest n refl)

module _ {M : Type 0} (s : Skip) (d : Fields M) where
  open d use {field}

  -- A round on a field of tag `t`, where the message has one of that number.
  pub round-field :
      (l t num : ℕ) (str rest : Bytes) (m : M) (f : Bytes → M → M)
      → t ≡ num * 8 + 2
      → t < 128
      → num ≢ 0
      → field num ≡ some f
      → length (str ++ rest) ≤ l
      → l < 2 ^ 31
      → round s d l (t ∷ (varint_groups (length str) ++ (str ++ rest))) m ≡ go_on (f str m) rest
  unfolding round
  round-field l t num str rest m f e small nz found fits hl =
      let behind : Bytes = varint_groups (length str) ++ (str ++ rest) in
      let one : read_groups 10 (t ∷ behind) ≡ got t behind = read_groups-one t behind small in
      let wire : t % 2 ^ 64 ≡ t = omega arith in
      let low : t % 8 ≡ 2 = omega arith in
      let high : t / 8 % 2 ^ 32 ≡ num = omega arith in
      let legal : (num == 0 || leb (2 ^ 31) num) ≡ false = ground arith in
      let limits : length str < limit 9 = omega (arith, length-append str rest) in
      rw (
        one,
        wire,
        low,
        high,
        legal,
        found,
        read_groups-groups 9 (length str) (str ++ rest) limits,
        take_counted_fits l str rest fits hl,
      )
