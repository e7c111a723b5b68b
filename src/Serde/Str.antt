-- ===== src/Serde/Str.antt =====
-- sdk/serde.go, writeStr: a string behind its length, written into a buffer at an offset.
use deepflow_wasm_go_sdk.Prelude.{
  ℕ, ◌+◌, ◌%◌, ◌^◌, ◌≤◌, ◌<◌, ◌≡◌, refl, Bool, true, false, Option, none, some, ◌++◌, arith, ltb,
  le→not_ltb, lt→ltb, leb, leb→le, Bool-cases, inl, inr, if◌then◌else◌, length,
}
use deepflow_wasm_go_sdk.Log.{Message, string_buf_size}
use deepflow_wasm_go_sdk.Go.Slices.{Bytes}
use deepflow_wasm_go_sdk.Go.Copy.{overwrite, overwrite_behind}
use deepflow_wasm_go_sdk.Go.Binary.{put_uint16}

-- The buffer and the offset behind the call, with the result. The offset is the `*offset` of the
-- source, and `uint16(l)` is the length modulo 2^16.
pub record Written : Type 0 where
  pub buf : Bytes
  pub offset : ℕ
  pub done : Bool
  pub logged : Option Message

unfoldable pub write_str : Bytes → Bytes → ℕ → Written
write_str s buf offset =
    let l = length s in
    if ltb (length buf) (offset + 2 + l)
    then record { buf = buf; offset = offset; done = false; logged = some string_buf_size }
    else record {
      buf = overwrite (overwrite buf offset (put_uint16 (l % 2 ^ 16))) (offset + 2) s;
      offset = offset + 2 + l;
      done = true;
      logged = none;
    }

-- A string shorter than 2^16 that fits is written at the offset behind its length, and nothing else
-- of the buffer changes; one that does not fit leaves buffer and offset as they were and is logged.
pub write_str_lem :
    (s buf : Bytes) (offset : ℕ)
    → length s < 2 ^ 16
    → write_str s buf offset ≡ (
        if leb (offset + 2 + length s) (length buf)
        then record {
          buf = overwrite buf offset (put_uint16 (length s) ++ s);
          offset = offset + 2 + length s;
          done = true;
          logged = none;
        }
        else record { buf = buf; offset = offset; done = false; logged = some string_buf_size })
unfolding write_str
write_str_lem s buf offset h = elim (Bool-cases (leb (offset + 2 + length s) (length buf))) [
  | inl g ↦
      let fits : offset + 2 + length s ≤ length buf = leb→le _ _ g in
      let len : length s % 2 ^ 16 ≡ length s = omega arith in
      rw (
        g,
        le→not_ltb (offset + 2 + length s) (length buf) fits,
        len,
        overwrite_behind buf offset (offset + 2) (put_uint16 (length s)) s refl fits,
      )
  | inr g ↦ rw (g, lt→ltb (length buf) (offset + 2 + length s) (ground arith))
]
