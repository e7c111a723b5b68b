-- ===== src/Serde/L7Info.antt =====
-- sdk/serde.go, serializeL7ProtocolInfo: the results of a plugin as protobuf messages, each behind its
-- length and the magic "PB".
pub mod Message
pub mod Status
pub mod Frames
pub mod Split
use deepflow_wasm_go_sdk.Prelude.{
  ℕ, zero, suc, ◌+◌, ◌%◌, ◌^◌, Option, none, some, List, [], ◌∷◌, ◌++◌, leb, length, take,
  replicate,
}
use deepflow_wasm_go_sdk.Log.{l7_info_too_large}
use deepflow_wasm_go_sdk.Go.Result.{Result, ok, panic, ◌>>=◌, ◌>>◌, guard}
use deepflow_wasm_go_sdk.Go.Slices.{Bytes, slice}
use deepflow_wasm_go_sdk.Go.Copy.{overwrite}
use deepflow_wasm_go_sdk.Go.Binary.{put_uint16}
use deepflow_wasm_go_sdk.Host.{L7ProtocolInfo, page_size}
use deepflow_wasm_go_sdk.Pb.Varint.{Varint}
use deepflow_wasm_go_sdk.Pb.Size.{size_app_info}
use deepflow_wasm_go_sdk.Pb.Marshal.{marshal_to, marshal_app_info}
use deepflow_wasm_go_sdk.Serde.L7Info.Message.{to_app_info}

-- "PB"
abbrev pub magic : Bytes
magic = 0x50 ∷ 0x42 ∷ []

module _ (v : Varint) where
  -- One round of the loop, from `start` on: the buffer and the new `off`. The slice of `buf` from
  -- `off` on shares its memory, so what MarshalToVT writes stands in `buf`. MarshalToVT returns no
  -- error, since no method that it calls does.
  unfoldable pub serialize_info : L7ProtocolInfo → ℕ → Bytes → ℕ → Result (Bytes × ℕ)
  serialize_info info direction buf start = do
    let off = start + 4
    let msg = to_app_info info direction
    let ser_size = size_app_info v msg
    guard (leb (off + ser_size) (length buf)) (some l7_info_too_large)
    part ← slice buf off (length buf)
    (part', n) ← marshal_to ser_size (marshal_app_info v msg) part
    let with_body = take off buf ++ part'
    let with_len = overwrite with_body start (put_uint16 ((ser_size + 2) % 2 ^ 16))
    ok (overwrite with_len (start + 2) magic, off + ser_size)

  -- The loop over `infos`: a nil pointer among them panics.
  unfoldable pub serialize_infos : List (Option L7ProtocolInfo) → ℕ → Bytes → ℕ → Result (Bytes × ℕ)
  serialize_infos [] direction buf off = ok (buf, off)
  serialize_infos (none ∷ infos) direction buf off = panic
  serialize_infos (some info ∷ infos) direction buf off = do
    (buf', off') ← serialize_info info direction buf off
    serialize_infos infos direction buf' off'

  -- The function on any buffer; its own has L7_INFO_BUF_SIZE bytes.
  unfoldable pub serialize_into : Bytes → List (Option L7ProtocolInfo) → ℕ → Result Bytes
  serialize_into buf infos direction = do
    (buf', off) ← serialize_infos infos direction buf 0
    slice buf' 0 off

  unfoldable pub serialize_l7_protocol_info : List (Option L7ProtocolInfo) → ℕ → Result Bytes
  serialize_l7_protocol_info infos direction =
      serialize_into (replicate page_size 0) infos direction
