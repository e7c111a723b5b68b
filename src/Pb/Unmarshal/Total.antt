-- ===== src/Pb/Unmarshal/Total.antt =====
-- The loop of UnmarshalVT ends.
use deepflow_wasm_go_sdk.Prelude.{
  ℕ, zero, suc, ◌+◌, ◌-◌, ◌≤◌, ◌<◌, ◌≡◌, refl, Option, none, some, [], ◌∷◌, arith, length,
  length-drop, Bool-cases, inl, inr, leb, ltb, ◌==◌,
}
use deepflow_wasm_go_sdk.Prelude.{◌||◌, ◌^◌, ◌%◌, ◌≢◌, ◌/◌, ◌≡◌}
use deepflow_wasm_go_sdk.Prelude.Int.{ℤ, pos, negsuc}
use deepflow_wasm_go_sdk.Go.Slices.{Bytes}
use deepflow_wasm_go_sdk.Pb.Unmarshal.{
  PbError, Skip, Read, got, bad, add_group, read_groups, take_counted, Round, go_on, stop, Fields,
  dispatch, follow, round, rounds, unmarshal, set_field, known, skipped, round_tag,
}

-- Fewer than `n` bytes are left.
abbrev Less : {A : Type 0} → ℕ → Read A → Type 0
Less n (got a rest) = length rest < n
Less n (bad e) = Unit {0}

abbrev LeftLess : {M : Type 0} → ℕ → Round M → Type 0
LeftLess n (go_on m rest) = length rest < n
LeftLess n (stop e) = Unit {0}

add_group-Less : (b n : ℕ) (r : Read ℕ) → Less n r → Less (suc n) (add_group b r)
add_group-Less b n (got v rest) h = omega arith
add_group-Less b n (bad e) h = tt

read_groups-Less : (k : ℕ) (bs : Bytes) → Less (length bs) (read_groups k bs)
unfolding read_groups
read_groups-Less zero bs = tt
read_groups-Less (suc k) [] = tt
read_groups-Less (suc k) (b ∷ bs) = elim (Bool-cases (ltb b 128)) [
  | inl e ↦ rw e (omega arith)
  | inr e ↦ rw e (add_group-Less b (length bs) (read_groups k bs) (read_groups-Less k bs))
]

take_counted-Less : (l n : ℕ) (r : Read ℕ) → Less n r → Less n (take_counted l r)
unfolding take_counted
take_counted-Less l n (bad e) h = tt
take_counted-Less l n (got v rest) h =
    let size = length-drop (v % 2 ^ 32) rest in
    let off : ℕ = l - length rest in
    elim (Bool-cases (leb (2 ^ 31) (v % 2 ^ 32) || leb (2 ^ 31) (off + v % 2 ^ 32))) [
      | inl e ↦ rw e tt
      | inr e ↦ elim (Bool-cases (ltb l (off + v % 2 ^ 32))) [
        | inl f ↦ rw (e, f) tt
        | inr f ↦ rw (e, f) (omega (arith, size))
      ]
    ]

widen : {A : Type 0} (n k : ℕ) (r : Read A) → n < k → Less n r → Less k r
widen n k (got v rest) h less = omega arith
widen n k (bad e) h less = tt

module _ {M : Type 0} (s : Skip) (d : Fields M) where
  open s use {skip, skip_some}

  set_field-LeftLess :
      (f : Bytes → M → M) (m : M) (n : ℕ) (r : Read Bytes) → Less n r → LeftLess n (set_field f m r)
  set_field-LeftLess f m n (got t rest) h = h
  set_field-LeftLess f m n (bad e) h = tt

  known-LeftLess :
      (l : ℕ) (f : Bytes → M → M) (w n : ℕ) (rest : Bytes) (m : M)
      → length rest < n
      → LeftLess n (known l f w rest m)
  known-LeftLess l f w n rest m h = elim (Bool-cases (w == 2)) [
    | inl e ↦ rw e (
        set_field-LeftLess f m n (take_counted l (read_groups 10 rest)) (
          take_counted-Less l n (read_groups 10 rest)
            (widen (length rest) n (read_groups 10 rest) h (read_groups-Less 10 rest))))
    | inr e ↦ rw e tt
  ]

  skipped-LeftLess :
      (l : ℕ) (f : Bytes → M → M) (o : Option ℤ) (b : ℕ) (bs : Bytes) (m : M)
      → ((n : ℕ) → o ≡ some (pos n) → n ≢ 0)
      → LeftLess (suc (length bs)) (skipped l f o (b ∷ bs) m)
  skipped-LeftLess l f none b bs m h = tt
  skipped-LeftLess l f (some (negsuc n)) b bs m h = tt
  skipped-LeftLess l f (some (pos n)) b bs m h =
      let some_bytes : n ≢ 0 = h n refl in
      let size = length-drop n (b ∷ bs) in
      let end : ℕ = l - suc (length bs) + n in
      elim (Bool-cases (leb (2 ^ 31) end)) [
        | inl e ↦ rw e tt
        | inr e ↦ elim (Bool-cases (ltb l end)) [
          | inl g ↦ rw (e, g) tt
          | inr g ↦ rw (e, g) (omega (arith, size))
        ]
      ]

  dispatch-LeftLess :
      (l n w : ℕ) (rest : Bytes) (b : ℕ) (bs : Bytes) (m : M) (f : Option (Bytes → M → M))
      → length rest < suc (length bs)
      → LeftLess (suc (length bs)) (dispatch s d l n w rest (b ∷ bs) m f)
  dispatch-LeftLess l n w rest b bs m (some f) h = known-LeftLess l f w (suc (length bs)) rest m h
  dispatch-LeftLess l n w rest b bs m none h =
      skipped-LeftLess l d.unknown (skip (b ∷ bs)) b bs m (skip_some (b ∷ bs))

  round_tag-LeftLess :
      (l : ℕ) (r : Read ℕ) (b : ℕ) (bs : Bytes) (m : M)
      → Less (suc (length bs)) r
      → LeftLess (suc (length bs)) (round_tag s d l r (b ∷ bs) m)
  round_tag-LeftLess l (bad e) b bs m h = tt
  round_tag-LeftLess l (got w rest) b bs m h =
      let wire : ℕ = w % 2 ^ 64 in
      let num : ℕ = wire / 8 % 2 ^ 32 in
      elim (Bool-cases (wire % 8 == 4)) [
        | inl e ↦ rw e tt
        | inr e ↦ elim (Bool-cases (num == 0 || leb (2 ^ 31) num)) [
          | inl f ↦ rw (e, f) tt
          | inr f ↦ rw (e, f) (dispatch-LeftLess l num (wire % 8) rest b bs m (d.field num) h)
        ]
      ]

  round-LeftLess :
      (l b : ℕ) (bs : Bytes) (m : M) → LeftLess (suc (length bs)) (round s d l (b ∷ bs) m)
  unfolding round
  round-LeftLess l b bs m =
      round_tag-LeftLess l (read_groups 10 (b ∷ bs)) b bs m (read_groups-Less 10 (b ∷ bs))

  Ends : Option (M × Option PbError) → Type 0
  Ends o = (r : M × Option PbError) × (o ≡ some r)

  after_round :
      (l fuel n : ℕ) (m : M) (r : Round M)
      → LeftLess n r
      → n ≤ suc fuel
      → ((rest : Bytes) (m' : M) → length rest ≤ fuel → Ends (rounds s d l fuel rest m'))
      → Ends (follow m r (rounds s d l fuel))
  unfolding Ends
  after_round l fuel n m (stop e) less h k = ((m, some e), refl)
  after_round l fuel n m (go_on m' rest) less h k = k rest m' (omega arith)

  rounds-Ends : (l fuel : ℕ) (bs : Bytes) (m : M) → length bs ≤ fuel → Ends (rounds s d l fuel bs m)
  unfolding rounds Ends
  rounds-Ends l fuel [] m h = ((m, none), refl)
  rounds-Ends l zero (b ∷ bs) m h = absurd (omega arith)
  rounds-Ends l (suc fuel) (b ∷ bs) m h =
      after_round l fuel (suc (length bs)) m (round s d l (b ∷ bs) m) (round-LeftLess l b bs m) h
        (rounds-Ends l fuel)

  -- The loop of UnmarshalVT ends, on all bytes: at the end of the bytes or with an error.
  pub unmarshal_ends :
      (bs : Bytes) (m : M) → (r : M × Option PbError) × (unmarshal s d bs m ≡ some r)
  unfolding unmarshal Ends
  unmarshal_ends bs m = rounds-Ends (length bs) (length bs) bs m (omega arith)
