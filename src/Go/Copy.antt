-- ===== src/Go/Copy.antt =====
-- `copy(buf[i:], xs)` where the bytes fit: the buffer with `xs` from position `i` on.
use deepflow_wasm_go_sdk.Prelude.{
  ℕ, zero, suc, ◌+◌, ◌≤◌, ◌≡◌, refl, sym, ap, ◌∙◌, [], ◌∷◌, ◌++◌, arith, append_assoc, length, take,
  drop, length-append, length-take, length-drop, take-append_self, drop-append_self, drop-drop,
  drop_all, append-nil,
}
use deepflow_wasm_go_sdk.Go.Slices.{Bytes}

abbrev pub overwrite : Bytes → ℕ → Bytes → Bytes
overwrite buf i xs = take i buf ++ (xs ++ drop (i + length xs) buf)

pub length-overwrite :
    (buf : Bytes) (i : ℕ) (xs : Bytes)
    → i + length xs ≤ length buf
    → length (overwrite buf i xs) ≡ length buf
length-overwrite buf i xs h = omega (
  arith,
  length-append (take i buf) (xs ++ drop (i + length xs) buf),
  length-append xs (drop (i + length xs) buf),
  length-drop (i + length xs) buf,
  length-take i buf (omega arith),
)

take-take_append :
    (k j : ℕ) (xs ys : Bytes) → k ≤ j → j ≤ length xs → take k (take j xs ++ ys) ≡ take k xs
take-take_append zero j xs ys h l = refl
take-take_append (suc k) zero xs ys h l = absurd (omega arith)
take-take_append (suc k) (suc j) [] ys h l = absurd (omega arith)
take-take_append (suc k) (suc j) (x ∷ xs) ys h l =
    ap (λ t. x ∷ t) (take-take_append k j xs ys (omega arith) (omega arith))

-- Writing directly in front of what was written.
pub overwrite_before :
    (buf : Bytes) (k j : ℕ) (ys xs : Bytes)
    → j ≡ k + length ys
    → j + length xs ≤ length buf
    → overwrite (overwrite buf j xs) k ys ≡ overwrite buf k (ys ++ xs)
overwrite_before buf k j ys xs e h =
    let kept =
      take-take_append k j buf (xs ++ drop (j + length xs) buf) (omega arith) (omega arith) in
    let passed =
      drop-append_self (take j buf) (xs ++ drop (j + length xs) buf) (k + length ys)
        (omega (arith, length-take j buf (omega arith))) in
    let behind : j + length xs ≡ k + length (ys ++ xs) = omega (arith, length-append ys xs) in
    rw (kept, passed, behind, append_assoc ys xs (drop (k + length (ys ++ xs)) buf))

-- Writing directly behind what was written.
pub overwrite_behind :
    (buf : Bytes) (k j : ℕ) (xs ys : Bytes)
    → j ≡ k + length xs
    → j + length ys ≤ length buf
    → overwrite (overwrite buf k xs) j ys ≡ overwrite buf k (xs ++ ys)
overwrite_behind buf k j xs ys e h =
    let old = drop (k + length xs) buf in
    let front = take k buf ++ xs in
    let front_len : j ≡ length front =
      omega (arith, length-append (take k buf) xs, length-take k buf (omega arith)) in
    let regroup = append_assoc (take k buf) xs old in
    let kept : take j (take k buf ++ (xs ++ old)) ≡ front =
      rw (← regroup) (take-append_self front old j front_len) in
    let passed : drop (j + length ys) (take k buf ++ (xs ++ old))
        ≡ drop (k + length (xs ++ ys)) buf =
      rw (← regroup) (
        sym (drop-drop j (length ys) (j + length ys) (front ++ old) refl)
        ∙ rw (drop-append_self front old j front_len) (
            drop-drop (k + length xs) (length ys) (k + length (xs ++ ys)) buf
              (omega (arith, length-append xs ys)))) in
    rw (
      kept,
      passed,
      append_assoc (take k buf) xs (ys ++ drop (k + length (xs ++ ys)) buf),
      append_assoc xs ys (drop (k + length (xs ++ ys)) buf),
    )

-- A buffer that is overwritten whole.
pub overwrite_all : (buf xs : Bytes) → length xs ≡ length buf → overwrite buf 0 xs ≡ xs
overwrite_all buf xs e = rw (drop_all (0 + length xs) buf (omega arith)) (append-nil xs)
