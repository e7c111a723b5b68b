-- ===== src/Plugin/Uprobe.antt =====
-- example/go_http2_uprobe/go_http2_uprobe.go: a header or a piece of data that a uprobe on Go's HTTP/2
-- has seen. An int has 32 bits. The package pb is generated: its messages are a parameter.
pub mod Header
pub mod Data
pub mod Handlers
use deepflow_wasm_go_sdk.Prelude.{
  ℕ, ◌+◌, ◌%◌, ◌^◌, Bool, true, false, not, ◌&&◌, ◌||◌, Option, none, some, List, [], ◌∷◌, ltb,
  ◌==◌, if◌then◌else◌, length,
}
use deepflow_wasm_go_sdk.Prelude.Int.{ℤ, is_neg}
use deepflow_wasm_go_sdk.Prelude.Text.{codes, bytes_eq}
use deepflow_wasm_go_sdk.Go.Result.{Result, ok, panic, ◌>>=◌}
use deepflow_wasm_go_sdk.Go.Slices.{Bytes, slice}
use deepflow_wasm_go_sdk.Go.Ints.{signed, exceeds, below, slice_int}
use deepflow_wasm_go_sdk.Go.Binary.{le_uint32}
use deepflow_wasm_go_sdk.Go.Strings.{parse_int16}
use deepflow_wasm_go_sdk.Host.{
  ParseCtx, Request, Response, KeyVal, Trace, L7ProtocolInfo, ebpf_go_http2_uprobe,
  ebpf_go_http2_uprobe_data, resp_status_ok, direction_request, direction_response,
}
use deepflow_wasm_go_sdk.Agent.{HostFunctions, Vm, pure, or_panic}
use deepflow_wasm_go_sdk.Pb.Unmarshal.{Skip}
use deepflow_wasm_go_sdk.Parser.Action.{
  Error, header_short, header_kv_short, data_short, data_length_short, data_payload_short, bad_int,
  Action, action_next, action_abort, empty_info, empty_request, empty_response,
}
use deepflow_wasm_go_sdk.Parser.Hooks.{hook_point_payload_parse}
use deepflow_wasm_go_sdk.Parser.Default.{no_check, default_parser}
use deepflow_wasm_go_sdk.Parser.Interface.{Parser, Check}
use deepflow_wasm_go_sdk.Plugin.{
  Returned, value, error, checked, one_info, get_status, payload_or, payload_or_abort, or_abort,
}

-- UnmarshalVT of pb.OrderResponse and pb.OrderRequest, with the field that is used: Msg and
-- BusinessId. `none` is an error.
pub record Orders : Type 0 where
  pub response_msg : Bytes → Option Bytes
  pub request_business_id : Bytes → Option Bytes

abbrev pub go_http2_ebpf_protocol : ℕ
go_http2_ebpf_protocol = 1

abbrev pub uint32_at : Bytes → ℕ → ℕ → Result ℕ
uint32_at payload i j = slice payload i j >>= le_uint32

-- What is done behind the three numbers.
unfoldable pub read_header : Bytes → ℕ → ℕ → ℕ → Result (Returned (ℕ × Bytes × Bytes))
read_header payload stream_id key_len val_len =
    if is_neg (signed key_len)
      || is_neg (signed key_len)
      || exceeds (signed ((key_len + val_len + 16) % 2 ^ 32)) (length payload)
    then ok (error (header_kv_short key_len val_len (length payload)))
    else (do
      key ← slice_int payload 16 ((16 + key_len) % 2 ^ 32)
      val ← slice_int payload ((16 + key_len) % 2 ^ 32) ((16 + key_len + val_len) % 2 ^ 32)
      ok (value (stream_id, key, val)))

-- The stream, the key and the value of a header.
unfoldable pub parse_header : Bytes → Result (Returned (ℕ × Bytes × Bytes))
parse_header payload = if ltb (length payload) 16 then ok (error header_short) else (do
  stream_id ← uint32_at payload 4 8
  key_len ← uint32_at payload 8 12
  val_len ← uint32_at payload 12 16
  read_header payload stream_id key_len val_len)

-- The stream and the data of a piece of data.
unfoldable pub parse_data : Bytes → Result (Returned (ℕ × Bytes))
parse_data payload = if ltb (length payload) 13 then ok (error data_short) else (do
  stream_id ← uint32_at payload 0 4
  data_len ← uint32_at payload 4 8
  (if below (signed data_len) 5
      then ok (error data_length_short)
      else if exceeds (signed ((data_len + 8) % 2 ^ 32)) (length payload)
      then ok (error (data_payload_short data_len (length payload)))
      else (do rest ← slice payload 13 (length payload); ok (value (stream_id, rest)))))

-- info.Req and info.Resp: a nil pointer panics.
abbrev on_req :
    (Request → Request) → L7ProtocolInfo → Option Request → Result (Returned L7ProtocolInfo)
on_req f info none = panic
on_req f info (some r) = ok (value (record info { req = some (f r) }))

abbrev on_resp :
    (Response → Response) → L7ProtocolInfo → Option Response → Result (Returned L7ProtocolInfo)
on_resp f info none = panic
on_resp f info (some r) = ok (value (record info { resp = some (f r) }))

abbrev on_status : Bytes → L7ProtocolInfo → Option ℤ → Result (Returned L7ProtocolInfo)
on_status val info none = ok (error (bad_int val))
on_status val info (some code) =
    on_resp (λ r. record r { code = some code; status = some (get_status code) }) info info.resp

-- The info as onHeader leaves it, or the error.
unfoldable pub on_header : L7ProtocolInfo → Bytes → Bytes → Result (Returned L7ProtocolInfo)
on_header info key val =
    if bytes_eq key (codes ":method")
    then on_req (λ r. record r { req_type = val }) info info.req
    else if bytes_eq key (codes ":path")
    then on_req (λ r. record r { resource = val }) info info.req
    else if bytes_eq key (codes ":host")
    then on_req (λ r. record r { domain = val }) info info.req
    else if bytes_eq key (codes ":status")
    then on_status val info (parse_int16 val)
    else ok (value info)

-- The info that a header goes into.
abbrev pub header_info : ℕ → L7ProtocolInfo
header_info stream_id = record empty_info {
  request_id = some stream_id;
  req = some empty_request;
  resp = some (record empty_response { status = some resp_status_ok });
  protocol_merge = true;
}

abbrev trace_of : Bytes → Option Trace
trace_of [] = none
trace_of (b ∷ bs) = some (record {
  trace_id = b ∷ bs;
  span_id = [];
  parent_span_id = [];
  x_request_id = [];
  http_proxy_client = [];
  trace_ids = [];
})

abbrev pub response_info : ℕ → Bytes → L7ProtocolInfo
response_info stream_id msg = record empty_info {
  request_id = some stream_id;
  resp = some (record empty_response { status = some resp_status_ok });
  kv = record { key = codes "msg"; val = msg } ∷ [];
  protocol_merge = true;
  is_end = true;
}

abbrev pub request_info : ℕ → Bytes → L7ProtocolInfo
request_info stream_id business_id = record empty_info {
  request_id = some stream_id;
  req = some empty_request;
  trace = trace_of business_id;
  kv = record { key = codes "business_id"; val = business_id } ∷ [];
  protocol_merge = true;
  is_end = true;
}
