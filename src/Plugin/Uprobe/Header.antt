-- ===== src/Plugin/Uprobe/Header.antt =====
-- What parseHeader and parseData return, by the two lengths that a payload announces.
use deepflow_wasm_go_sdk.Prelude.{
  ℕ, ◌+◌, ◌%◌, ◌^◌, ◌≤◌, ◌<◌, ◌≡◌, refl, false, ◌++◌, arith, ltb, leb, le→not_ltb, lt→ltb,
  if◌then◌else◌, length, length-append, take, drop, take-append-drop, subst, sym, ◌∙◌, Bool-cases,
  inl, inr, leb→le, not_leb→lt, length-take, length-drop,
}
use deepflow_wasm_go_sdk.Go.Result.{ok, panic}
use deepflow_wasm_go_sdk.Go.Slices.{Bytes, slice, At, At-start, At-skip, slice-At}
use deepflow_wasm_go_sdk.Go.Ints.{signed, exceeds, overflow_passes, slice_overflow, slice_int_pos}
use deepflow_wasm_go_sdk.Go.Binary.{le_bytes, le_uint32-le_bytes}
use deepflow_wasm_go_sdk.Parser.Action.{header_kv_short}
use deepflow_wasm_go_sdk.Plugin.{value, error}
use deepflow_wasm_go_sdk.Plugin.Uprobe.{uint32_at, parse_header, read_header}

pub uint32_at-le_bytes :
    {i : ℕ} {payload : Bytes} (v : ℕ) (rest : Bytes) (j : ℕ)
    → At i payload (le_bytes v ++ rest)
    → j ≡ i + 4
    → v < 2 ^ 32
    → uint32_at payload i j ≡ ok v
uint32_at-le_bytes v rest j at e h = rw (slice-At (le_bytes v) rest j at e, le_uint32-le_bytes v h)

-- A header: a file descriptor of four bytes, the stream, the two lengths and the rest.
abbrev pub header : Bytes → ℕ → ℕ → ℕ → Bytes → Bytes
header fd stream_id k v rest = fd ++ (le_bytes stream_id ++ (le_bytes k ++ (le_bytes v ++ rest)))

module _ (fd : Bytes) (stream_id k v : ℕ) (rest : Bytes) where
  pub length-header : length fd ≡ 4 → length (header fd stream_id k v rest) ≡ 16 + length rest
  length-header h =
      omega (arith, length-append fd (le_bytes stream_id ++ (le_bytes k ++ (le_bytes v ++ rest))))

  -- The three numbers are read as they were written.
  parse_header-header :
      length fd ≡ 4
      → stream_id < 2 ^ 32
      → k < 2 ^ 32
      → v < 2 ^ 32
      → parse_header (header fd stream_id k v rest)
        ≡ read_header (header fd stream_id k v rest) stream_id k v
  unfolding parse_header
  parse_header-header h hs hk hv =
      let payload : Bytes = header fd stream_id k v rest in
      let long : ltb (length payload) 16 ≡ false = ground (arith, length-header h) in
      let at4 = At-skip fd 4 (At-start payload) (omega arith) in
      let at8 = At-skip (le_bytes stream_id) 8 at4 refl in
      let at12 = At-skip (le_bytes k) 12 at8 refl in
      rw (
        long,
        uint32_at-le_bytes stream_id (le_bytes k ++ (le_bytes v ++ rest)) 8 at4 refl hs,
        uint32_at-le_bytes k (le_bytes v ++ rest) 12 at8 refl hk,
        uint32_at-le_bytes v rest 16 at12 refl hv,
      )

-- The rest of a header stands at 16.
At-header :
    (fd : Bytes) (stream_id k v : ℕ) (rest : Bytes)
    → length fd ≡ 4
    → At 16 (header fd stream_id k v rest) rest
At-header fd stream_id k v rest h =
    let at4 = At-skip fd 4 (At-start (header fd stream_id k v rest)) (omega arith) in
    let at8 = At-skip (le_bytes stream_id) 8 at4 refl in
    At-skip (le_bytes v) 16 (At-skip (le_bytes k) 12 at8 refl) refl

slice-rest :
    (payload rest : Bytes) (off n i j : ℕ)
    → At off payload rest
    → n ≤ length rest
    → i ≡ off
    → j ≡ off + n
    → slice payload i j ≡ ok (take n rest)
slice-rest payload rest off n i j at h e f =
    let split : take n rest ++ drop n rest ≡ rest = take-append-drop n rest in
    rw e (
      slice-At (take n rest) (drop n rest) j (subst (λ r. At off payload r) (sym split) at)
        (omega (arith, length-take n rest h)))

At-into :
    (payload rest : Bytes) (off n j : ℕ)
    → At off payload rest
    → n ≤ length rest
    → j ≡ off + n
    → At j payload (drop n rest)
At-into payload rest off n j at h e =
    let split : take n rest ++ drop n rest ≡ rest = take-append-drop n rest in
    At-skip (take n rest) j (subst (λ r. At off payload r) (sym split) at)
      (omega (arith, length-take n rest h))

module _ (fd : Bytes) (stream_id k v : ℕ) (rest : Bytes) where
  -- Where the lengths and the 16 bytes in front of the key and value come to less than 2^31,
  -- parseHeader returns the stream, the key and the value as they stand there, or, where they are
  -- longer than what is there, the error.
  pub parse_header_fits :
      length fd ≡ 4
      → stream_id < 2 ^ 32
      → k + v + 16 < 2 ^ 31
      → parse_header (header fd stream_id k v rest) ≡ (
          if leb (k + v) (length rest)
          then ok (value (stream_id, take k rest, take v (drop k rest)))
          else ok (error (header_kv_short k v (16 + length rest))))
  unfolding read_header
  parse_header_fits h hs small =
      let payload : Bytes = header fd stream_id k v rest in
      let len = length-header fd stream_id k v rest h in
      let sum : (k + v + 16) % 2 ^ 32 ≡ 16 + k + v = omega arith in
      let low : (16 + k) % 2 ^ 32 ≡ 16 + k = omega arith in
      let high : (16 + k + v) % 2 ^ 32 ≡ 16 + k + v = omega arith in
      let at16 = At-header fd stream_id k v rest h in
      rw
        (
          parse_header-header fd stream_id k v rest h hs (omega arith) (omega arith),
          sum,
          low,
          high,
          len,
          lt→ltb k (2 ^ 31) (omega arith),
          lt→ltb (16 + k + v) (2 ^ 31) (omega arith),
        )
        (elim (Bool-cases (leb (k + v) (length rest))) [
          | inl e ↦
              let fits = leb→le (k + v) (length rest) e in
              let key =
                slice_int_pos payload 16 (16 + k) (omega arith) (omega arith)
                ∙ slice-rest payload rest 16 k 16 (16 + k) at16 (omega arith) refl refl in
              let value_at = At-into payload rest 16 k (16 + k) at16 (omega arith) refl in
              let val =
                slice_int_pos payload (16 + k) (16 + k + v) (omega arith) (omega arith)
                ∙ slice-rest payload (drop k rest) (16 + k) v (16 + k) (16 + k + v) value_at
                    (omega (arith, length-drop k rest)) refl refl in
              rw (e, key, val, le→not_ltb (16 + k + v) (16 + length rest) (omega arith))
          | inr e ↦ rw (
            e,
            lt→ltb (16 + length rest) (16 + k + v)
                (omega (arith, not_leb→lt (k + v) (length rest) e)),
          )
        ])

  -- Where they come to 2^31 or more, the length of the key is below 2^31 and the key is there,
  -- parseHeader panics on a payload shorter than 2^31: the sum overflows the int, and only the
  -- length of the key is tested for a negative number.
  pub parse_header_panics :
      length fd ≡ 4
      → stream_id < 2 ^ 32
      → v < 2 ^ 32
      → k ≤ length rest
      → 16 + length rest < 2 ^ 31
      → 2 ^ 31 ≤ k + v + 16
      → parse_header (header fd stream_id k v rest) ≡ panic
  unfolding read_header
  parse_header_panics h hs hv there short over =
      let payload : Bytes = header fd stream_id k v rest in
      let len = length-header fd stream_id k v rest h in
      let low : (16 + k) % 2 ^ 32 ≡ 16 + k = omega arith in
      let at16 = At-header fd stream_id k v rest h in
      let key =
        slice_int_pos payload 16 (16 + k) (omega arith) (omega arith)
        ∙ slice-rest payload rest 16 k 16 (16 + k) at16 there refl refl in
      let passes : exceeds (signed ((k + v + 16) % 2 ^ 32)) (16 + length rest) ≡ false =
        overflow_passes (k + v + 16) (16 + length rest) (omega arith) over (omega arith) in
      rw (
        parse_header-header fd stream_id k v rest h hs (omega arith) hv,
        len,
        lt→ltb k (2 ^ 31) (omega arith),
        passes,
        low,
        key,
        slice_overflow payload (16 + k) v (omega arith) hv (omega arith),
      )
