-- ===== src/Plugin/Uprobe/Data.antt =====
-- What parseData returns.
use deepflow_wasm_go_sdk.Prelude.{
  ℕ, ◌+◌, ◌%◌, ◌^◌, ◌≤◌, ◌<◌, ◌≡◌, refl, false, ◌++◌, arith, ltb, lt→ltb, if◌then◌else◌, length,
  drop,
}
use deepflow_wasm_go_sdk.Prelude.Int.{pos}
use deepflow_wasm_go_sdk.Go.Ints.{exceeds}
use deepflow_wasm_go_sdk.Go.Result.{ok}
use deepflow_wasm_go_sdk.Go.Slices.{Bytes, At-start, At-skip, slice_back}
use deepflow_wasm_go_sdk.Go.Binary.{le_bytes}
use deepflow_wasm_go_sdk.Parser.Action.{data_length_short, data_payload_short}
use deepflow_wasm_go_sdk.Plugin.{value, error}
use deepflow_wasm_go_sdk.Plugin.Uprobe.{parse_data}
use deepflow_wasm_go_sdk.Plugin.Uprobe.Header.{uint32_at-le_bytes}

-- A stream, a length `n` and at least five bytes: parseData returns all that is behind the five
-- bytes, where `n` is at least 5 and at most what is there, and the error otherwise. `n` says no
-- more: what stands behind the `n` bytes is returned too.
pub parse_data_lem :
    (stream_id n : ℕ) (rest : Bytes)
    → stream_id < 2 ^ 32
    → n + 8 < 2 ^ 31
    → 5 ≤ length rest
    → parse_data (le_bytes stream_id ++ (le_bytes n ++ rest)) ≡ (
        if ltb n 5
        then ok (error data_length_short)
        else if ltb (length rest) n
        then ok (error (data_payload_short n (8 + length rest)))
        else ok (value (stream_id, drop 5 rest)))
unfolding parse_data
parse_data_lem stream_id n rest hs small five =
    let payload : Bytes = le_bytes stream_id ++ (le_bytes n ++ rest) in
    let len : length payload ≡ 8 + length rest = omega arith in
    let long : ltb (length payload) 13 ≡ false = ground arith in
    let sum : (n + 8) % 2 ^ 32 ≡ n + 8 = omega arith in
    let room : exceeds (pos (n + 8)) (length payload) ≡ ltb (length rest) n = ground arith in
    let at4 = At-skip (le_bytes stream_id) 4 (At-start payload) refl in
    rw (
      long,
      uint32_at-le_bytes stream_id (le_bytes n ++ rest) 4 (At-start payload) refl hs,
      uint32_at-le_bytes n rest 8 at4 refl (omega arith),
      lt→ltb n (2 ^ 31) (omega arith),
      sum,
      lt→ltb (n + 8) (2 ^ 31) (omega arith),
      room,
      slice_back payload 13 (omega arith),
      len,
    )
