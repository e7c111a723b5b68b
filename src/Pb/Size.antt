-- ===== src/Pb/Size.antt =====
-- The SizeVT methods of sdk/pb/WasmPluginApi_vtproto.pb.go, on messages that are not nil.
use deepflow_wasm_go_sdk.Prelude.{
  ℕ, ◌+◌, Bool, Option, none, some, List, [], ◌∷◌, ltb, if◌then◌else◌, length,
}
use deepflow_wasm_go_sdk.Prelude.Int.{ℤ, to_uint64}
use deepflow_wasm_go_sdk.Go.Slices.{Bytes}
use deepflow_wasm_go_sdk.Pb.Messages.{
  AppRequest, AppResponse, AppTrace, KeyVal, Info, req, resp, AppInfo, NatsMessage, ZmtpMessage,
}
use deepflow_wasm_go_sdk.Pb.Varint.{Varint}

abbrev pub size_bool : Option Bool → ℕ
size_bool none = 0
size_bool (some b) = 3

module _ (v : Varint) where
  open v use {size_of_varint}

  -- n += tag + l + SizeOfVarint(l), for a field with a tag of `tag` bytes
  abbrev pub size_len : ℕ → ℕ → ℕ
  size_len tag l = tag + l + size_of_varint l

  abbrev pub size_str : ℕ → Option Bytes → ℕ
  size_str tag none = 0
  size_str tag (some s) = size_len tag (length s)

  abbrev pub size_uint : ℕ → Option ℕ → ℕ
  size_uint tag none = 0
  size_uint tag (some n) = tag + size_of_varint n

  -- The signed value is converted to uint64.
  abbrev pub size_int : Option ℤ → ℕ
  size_int none = 0
  size_int (some z) = 1 + size_of_varint (to_uint64 z)

  abbrev pub size_strs : List Bytes → ℕ
  size_strs [] = 0
  size_strs (s ∷ ss) = size_len 1 (length s) + size_strs ss

  -- if l > 0
  abbrev pub size_nonempty : Bytes → ℕ
  size_nonempty s = if ltb 0 (length s) then size_len 1 (length s) else 0

  unfoldable pub size_app_request : AppRequest → ℕ
  size_app_request m =
      size_str 1 m.version
      + size_str 1 m.type
      + size_str 1 m.domain
      + size_str 1 m.resource
      + size_str 1 m.endpoint
      + length m.unknown_fields

  unfoldable pub size_app_response : AppResponse → ℕ
  size_app_response m =
      size_int m.status
      + size_int m.code
      + size_str 1 m.exception
      + size_str 1 m.result
      + size_str 1 m.type
      + size_str 1 m.endpoint
      + length m.unknown_fields

  unfoldable pub size_app_trace : AppTrace → ℕ
  size_app_trace m =
      size_str 1 m.trace_id
      + size_str 1 m.span_id
      + size_str 1 m.parent_span_id
      + size_str 1 m.x_request_id
      + size_str 1 m.http_proxy_client
      + size_strs m.trace_ids
      + length m.unknown_fields

  unfoldable pub size_key_val : KeyVal → ℕ
  size_key_val m = size_nonempty m.key + size_nonempty m.val + length m.unknown_fields

  unfoldable pub size_attributes : List KeyVal → ℕ
  size_attributes [] = 0
  size_attributes (e ∷ es) = size_len 2 (size_key_val e) + size_attributes es

  unfoldable pub size_app_info_req : Option AppRequest → ℕ
  size_app_info_req none = 0
  size_app_info_req (some m) = size_len 1 (size_app_request m)

  unfoldable pub size_app_info_resp : Option AppResponse → ℕ
  size_app_info_resp none = 0
  size_app_info_resp (some m) = size_len 1 (size_app_response m)

  -- m.Info.(interface{ SizeVT() int })
  unfoldable pub size_info : Option Info → ℕ
  size_info none = 0
  size_info (some (req m)) = size_app_info_req m
  size_info (some (resp m)) = size_app_info_resp m

  unfoldable pub size_trace : Option AppTrace → ℕ
  size_trace none = 0
  size_trace (some m) = size_len 1 (size_app_trace m)

  unfoldable pub size_app_info : AppInfo → ℕ
  size_app_info m =
      size_uint 1 m.req_len
      + size_uint 1 m.resp_len
      + size_uint 1 m.request_id
      + size_info m.info
      + size_trace m.trace
      + size_str 1 m.protocol_str
      + size_bool m.is_end
      + size_bool m.is_async
      + size_bool m.is_reversed
      + size_attributes m.attributes
      + size_uint 2 m.biz_type
      + size_str 2 m.biz_code
      + size_str 2 m.biz_scenario
      + size_str 2 m.biz_response_code
      + length m.unknown_fields

  unfoldable pub size_nats_message : NatsMessage → ℕ
  size_nats_message m =
      size_nonempty m.subject
      + size_nonempty m.reply_to
      + size_nonempty m.payload
      + length m.unknown_fields

  -- The wrapper of the oneof has a size of its own.
  unfoldable pub size_match_pattern : Bytes → ℕ
  size_match_pattern s = size_len 1 (length s)

  unfoldable pub size_subscription : Option Bytes → ℕ
  size_subscription none = 0
  size_subscription (some s) = size_match_pattern s

  unfoldable pub size_zmtp_message : ZmtpMessage → ℕ
  size_zmtp_message m =
      size_subscription m.match_pattern + size_nonempty m.payload + length m.unknown_fields
