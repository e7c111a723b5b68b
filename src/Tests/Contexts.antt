-- ===== src/Tests/Contexts.antt =====
-- The contexts, read from what the agent writes.
use deepflow_wasm_go_sdk.Prelude.{◌-◌, ◌^◌, ◌≡◌, ◌↔◌, refl, some, [], ◌∷◌, ◌++◌, arith, All, take}
use deepflow_wasm_go_sdk.Go.Result.{ok, err, panic, Ensures}
use deepflow_wasm_go_sdk.Go.Slices.{Bytes, IsByte, index, slice}
use deepflow_wasm_go_sdk.Go.Binary.{uint16, uint32, uint64}
use deepflow_wasm_go_sdk.Log.{unexpected_direction, unexpected_ip_type}
use deepflow_wasm_go_sdk.Serde.ParseCtx.{deserialize_parse_ctx}
use deepflow_wasm_go_sdk.Serde.ParseCtx.Format.{format, IsValid}
use deepflow_wasm_go_sdk.Serde.ParseCtx.RoundTrip.{deserialize_parse_ctx-format}
use deepflow_wasm_go_sdk.Serde.ParseCtx.Sound.{
  deserialize_parse_ctx-Ensures, deserialize_parse_ctx_iff,
}
use deepflow_wasm_go_sdk.Serde.Strings.{read_strs, read_str, read_body}
use deepflow_wasm_go_sdk.Serde.HttpReq.{
  deserialize_http_req_ctx, deserialize_http_req_ctx_iff, ReqFormat,
}
use deepflow_wasm_go_sdk.Serde.HttpResp.{
  read_endpoint, deserialize_http_resp_ctx, deserialize_http_resp_ctx_iff, RespFormat,
}
use deepflow_wasm_go_sdk.Serde.CustomMessage.{
  deserialize_custom_message_ctx, deserialize_custom_message_ctx_iff,
  deserialize_custom_message_ctx_panic, MessageFormat, message_format,
}
use deepflow_wasm_go_sdk.Tests.Data.{
  dns_ctx, dns_ctx-IsValid, dns_bytes, req_ctx, req_bytes, resp_ctx, resp_bytes, message_ctx,
  message_bytes,
}

dns_format : format dns_ctx [] ≡ dns_bytes
dns_format = refl

dns_read : deserialize_parse_ctx (dns_bytes ++ 1 ∷ []) ≡ ok dns_ctx
unfolding deserialize_parse_ctx slice index uint16 uint64
dns_read = refl

dns_cut :
    deserialize_parse_ctx
      (take 13 dns_bytes ++ 17 ∷ 1 ∷ 255 ∷ 0 ∷ 0 ∷ 0 ∷ 0 ∷ 0 ∷ 0 ∷ 0 ∷ 0 ∷ 2 ∷ 0 ∷ [])
    ≡ err (some (unexpected_direction 2))
unfolding deserialize_parse_ctx slice index uint16 uint64
dns_cut = refl

pub five_refused : deserialize_parse_ctx (5 ∷ []) ≡ err (some (unexpected_ip_type 5))
unfolding deserialize_parse_ctx slice index
five_refused = refl

pub req_read : deserialize_http_req_ctx dns_bytes req_bytes ≡ ok req_ctx
unfolding deserialize_http_req_ctx deserialize_parse_ctx slice index uint16 uint64 read_strs
    read_str read_body
req_read = refl

pub resp_read : deserialize_http_resp_ctx dns_bytes resp_bytes ≡ ok resp_ctx
unfolding deserialize_http_resp_ctx deserialize_parse_ctx slice index uint16 uint64 read_endpoint
resp_read = refl

pub message_read : deserialize_custom_message_ctx dns_bytes message_bytes ≡ ok message_ctx
unfolding deserialize_custom_message_ctx deserialize_parse_ctx slice index uint16 uint32 uint64
message_read = refl

pub dns_bytes-All : All IsByte dns_bytes
dns_bytes-All = ground arith

deserialize_parse_ctx-format_example : deserialize_parse_ctx (format dns_ctx (1 ∷ [])) ≡ ok dns_ctx
deserialize_parse_ctx-format_example = deserialize_parse_ctx-format dns_ctx (1 ∷ []) dns_ctx-IsValid

deserialize_parse_ctx-Ensures_example :
    Ensures
      (λ c. IsValid c × ((rest : Bytes) × (dns_bytes ≡ format c rest)))
      (deserialize_parse_ctx dns_bytes)
deserialize_parse_ctx-Ensures_example = deserialize_parse_ctx-Ensures dns_bytes dns_bytes-All

deserialize_parse_ctx_iff_example :
    (deserialize_parse_ctx dns_bytes ≡ ok dns_ctx)
    ↔ (IsValid dns_ctx × ((rest : Bytes) × (dns_bytes ≡ format dns_ctx rest)))
deserialize_parse_ctx_iff_example = deserialize_parse_ctx_iff dns_bytes dns_ctx dns_bytes-All

deserialize_http_req_ctx_iff_example :
    (deserialize_http_req_ctx dns_bytes req_bytes ≡ ok req_ctx)
    ↔ ReqFormat dns_bytes req_bytes req_ctx
deserialize_http_req_ctx_iff_example =
    deserialize_http_req_ctx_iff dns_bytes req_bytes req_ctx dns_bytes-All (ground arith)

deserialize_http_resp_ctx_iff_example :
    (deserialize_http_resp_ctx dns_bytes resp_bytes ≡ ok resp_ctx)
    ↔ RespFormat dns_bytes resp_bytes resp_ctx
deserialize_http_resp_ctx_iff_example =
    deserialize_http_resp_ctx_iff dns_bytes resp_bytes resp_ctx dns_bytes-All (ground arith)

deserialize_custom_message_ctx_iff_example :
    (deserialize_custom_message_ctx dns_bytes message_bytes ≡ ok message_ctx)
    ↔ MessageFormat dns_bytes message_bytes message_ctx
deserialize_custom_message_ctx_iff_example =
    deserialize_custom_message_ctx_iff dns_bytes message_bytes message_ctx dns_bytes-All
      (ground arith) (omega arith)

deserialize_custom_message_ctx_panic_example :
    deserialize_custom_message_ctx (format dns_ctx []) (message_format 1 40 (2 ^ 32 - 1) (8 ∷ []))
    ≡ panic
deserialize_custom_message_ctx_panic_example =
    deserialize_custom_message_ctx_panic dns_ctx [] 1 40 (2 ^ 32 - 1) (8 ∷ []) dns_ctx-IsValid
      (omega arith) (omega arith) (omega arith) (omega arith) (omega arith)
