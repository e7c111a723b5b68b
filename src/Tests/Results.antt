-- ===== src/Tests/Results.antt =====
-- The results of a plugin, as the bytes that the agent gets.
use deepflow_wasm_go_sdk.Prelude.{◌≡◌, some, [], ◌∷◌, leb, if◌then◌else◌, length, refl, ◌∙◌}
use deepflow_wasm_go_sdk.Serde.L7Info.Frames.{frame, frames, serialize_l7_protocol_info_lem}
use deepflow_wasm_go_sdk.Pb.Format.{
  attribute_bytes, key_val_bytes, nonempty_bytes, info_bytes, app_response_bytes, app_info_bytes,
}
use deepflow_wasm_go_sdk.Log.{l7_info_too_large}
use deepflow_wasm_go_sdk.Go.Result.{ok, err}
use deepflow_wasm_go_sdk.Go.Slices.{Bytes}
use deepflow_wasm_go_sdk.Host.{page_size}
use deepflow_wasm_go_sdk.Pb.Correct.{Marshals, app_info-Marshals}
use deepflow_wasm_go_sdk.Pb.Marshal.{marshal_app_info}
use deepflow_wasm_go_sdk.Pb.Size.{size_app_info}
use deepflow_wasm_go_sdk.Serde.L7Info.{serialize_l7_protocol_info}
use deepflow_wasm_go_sdk.Serde.L7Info.Message.{
  to_app_info, to_pb_status, to_key_val, to_info, to_app_response,
}
use deepflow_wasm_go_sdk.Serde.L7Info.Split.{split, bodies, split-serialize}
use deepflow_wasm_go_sdk.Tests.Data.{base128, info}

app_info-Marshals_example :
    Marshals
      (marshal_app_info base128 (to_app_info info 0))
      (size_app_info base128 (to_app_info info 0))
      (app_info_bytes base128 (to_app_info info 0))
app_info-Marshals_example = app_info-Marshals base128 (to_app_info info 0)

serialize_l7_protocol_info_lem_example :
    serialize_l7_protocol_info base128 (some info ∷ some info ∷ []) 1 ≡ (
      if leb (length (frames base128 1 (info ∷ info ∷ []))) page_size
      then ok (frames base128 1 (info ∷ info ∷ []))
      else err (some l7_info_too_large))
serialize_l7_protocol_info_lem_example = serialize_l7_protocol_info_lem base128 1 (info ∷ info ∷ [])

abbrev sent : Bytes
sent = frames base128 1 (info ∷ [])

sent_ok : serialize_l7_protocol_info base128 (some info ∷ []) 1 ≡ ok sent
unfolding frames frame app_info_bytes to_app_info attribute_bytes key_val_bytes nonempty_bytes
    to_key_val to_info info_bytes app_response_bytes to_app_response to_pb_status
sent_ok = serialize_l7_protocol_info_lem base128 1 (info ∷ []) ∙ refl

split-serialize_example : split 1 sent ≡ some (bodies base128 1 (info ∷ []))
split-serialize_example = split-serialize base128 1 (info ∷ []) sent sent_ok
