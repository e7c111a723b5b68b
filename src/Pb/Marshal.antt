-- ===== src/Pb/Marshal.antt =====
-- The MarshalToSizedBufferVT, MarshalToVT and MarshalVT methods of sdk/pb/WasmPluginApi_vtproto.pb.go,
-- on messages that are not nil, statement by statement: the field that stands last is written first.
use deepflow_wasm_go_sdk.Prelude.{
  ℕ, ◌++◌, Bool, Option, ltb, if◌then◌else◌, length, drop, replicate,
}
use deepflow_wasm_go_sdk.Prelude.Int.{ℤ, to_uint64}
use deepflow_wasm_go_sdk.Go.Result.{Result, ok, ◌>>=◌}
use deepflow_wasm_go_sdk.Go.Slices.{Bytes, slice}
use deepflow_wasm_go_sdk.Pb.Messages.{
  AppRequest, AppResponse, AppTrace, KeyVal, Info, req, resp, AppInfo, NatsMessage, ZmtpMessage,
}
use deepflow_wasm_go_sdk.Pb.Varint.{Varint}
use deepflow_wasm_go_sdk.Pb.Writer.{
  Writer, Marshal, skip, ◌⨟◌, put_bytes, put_byte, sized, nested, put_each, put_option,
}

-- MarshalToVT, for a message of size `size`: size := m.SizeVT(); MarshalToSizedBufferVT(dAtA[:size])
unfoldable pub marshal_to : ℕ → Marshal → Marshal
marshal_to size marshal buf = do
  front ← slice buf 0 size
  (front', n) ← marshal front
  ok (front' ++ drop size buf, n)

-- MarshalVT, likewise: dAtA = make([]byte, size); n, err := MarshalToSizedBufferVT(dAtA[:size]);
-- return dAtA[:n], nil
unfoldable pub marshal_new : ℕ → Marshal → Result Bytes
marshal_new size marshal = do (buf, n) ← marshal (replicate size 0); slice buf 0 n

abbrev pub put_tag2 : ℕ → ℕ → Writer
put_tag2 second first = put_byte second ⨟ put_byte first

abbrev pub put_bool : Writer → Bool → Writer
put_bool tag b = put_byte (if b then 1 else 0) ⨟ tag

module _ (v : Varint) where
  open v use {encode_varint}

  abbrev pub put_varint : ℕ → Writer
  put_varint n buf i = encode_varint buf i n

  abbrev pub put_str : Writer → Bytes → Writer
  put_str tag s = put_bytes s ⨟ put_varint (length s) ⨟ tag

  abbrev pub put_uint : Writer → ℕ → Writer
  put_uint tag n = put_varint n ⨟ tag

  abbrev pub put_int : Writer → ℤ → Writer
  put_int tag z = put_varint (to_uint64 z) ⨟ tag

  -- if len(s) > 0
  unfoldable pub put_nonempty : Writer → Bytes → Writer
  put_nonempty tag s = if ltb 0 (length s) then put_str tag s else skip

  -- A message inside a message: its bytes, their number and the tag.
  abbrev pub put_message : Writer → Marshal → Writer
  put_message tag marshal = nested marshal (λ size. put_varint size ⨟ tag)

  unfoldable pub marshal_app_request : AppRequest → Marshal
  marshal_app_request m = sized (
      put_bytes m.unknown_fields
      ⨟ put_option (put_str (put_byte 0x2a)) m.endpoint
      ⨟ put_option (put_str (put_byte 0x22)) m.resource
      ⨟ put_option (put_str (put_byte 0x1a)) m.domain
      ⨟ put_option (put_str (put_byte 0x12)) m.type
      ⨟ put_option (put_str (put_byte 0xa)) m.version)

  unfoldable pub marshal_app_response : AppResponse → Marshal
  marshal_app_response m = sized (
      put_bytes m.unknown_fields
      ⨟ put_option (put_str (put_byte 0x32)) m.endpoint
      ⨟ put_option (put_str (put_byte 0x2a)) m.type
      ⨟ put_option (put_str (put_byte 0x22)) m.result
      ⨟ put_option (put_str (put_byte 0x1a)) m.exception
      ⨟ put_option (put_int (put_byte 0x10)) m.code
      ⨟ put_option (put_int (put_byte 0x8)) m.status)

  unfoldable pub marshal_app_trace : AppTrace → Marshal
  marshal_app_trace m = sized (
      put_bytes m.unknown_fields
      ⨟ put_each (put_str (put_byte 0x32)) m.trace_ids
      ⨟ put_option (put_str (put_byte 0x2a)) m.http_proxy_client
      ⨟ put_option (put_str (put_byte 0x22)) m.x_request_id
      ⨟ put_option (put_str (put_byte 0x1a)) m.parent_span_id
      ⨟ put_option (put_str (put_byte 0x12)) m.span_id
      ⨟ put_option (put_str (put_byte 0xa)) m.trace_id)

  unfoldable pub marshal_key_val : KeyVal → Marshal
  marshal_key_val m = sized (
      put_bytes m.unknown_fields
      ⨟ put_nonempty (put_byte 0x12) m.val
      ⨟ put_nonempty (put_byte 0xa) m.key)

  unfoldable pub marshal_app_info_req : Option AppRequest → Marshal
  marshal_app_info_req r =
      sized (put_option (λ m. put_message (put_byte 0x52) (marshal_app_request m)) r)

  unfoldable pub marshal_app_info_resp : Option AppResponse → Marshal
  marshal_app_info_resp r =
      sized (put_option (λ m. put_message (put_byte 0x5a) (marshal_app_response m)) r)

  -- The method of the oneof's wrapper.
  unfoldable pub marshal_info : Info → Marshal
  marshal_info (req r) = marshal_app_info_req r
  marshal_info (resp r) = marshal_app_info_resp r

  unfoldable pub marshal_app_info : AppInfo → Marshal
  marshal_app_info m = sized (
      put_bytes m.unknown_fields
      ⨟ put_option (λ x. nested (marshal_info x) (λ size. skip)) m.info
      ⨟ put_option (put_str (put_tag2 0x2 0x9a)) m.biz_response_code
      ⨟ put_option (put_str (put_tag2 0x2 0x92)) m.biz_scenario
      ⨟ put_option (put_str (put_tag2 0x2 0x8a)) m.biz_code
      ⨟ put_option (put_uint (put_tag2 0x2 0x80)) m.biz_type
      ⨟ put_each (λ kv. put_message (put_tag2 0x1 0xfa) (marshal_key_val kv)) m.attributes
      ⨟ put_option (put_bool (put_tag2 0x1 0xb8)) m.is_reversed
      ⨟ put_option (put_bool (put_tag2 0x1 0xb0)) m.is_async
      ⨟ put_option (put_bool (put_tag2 0x1 0xa8)) m.is_end
      ⨟ put_option (put_str (put_byte 0x6a)) m.protocol_str
      ⨟ put_option (λ t. put_message (put_byte 0x62) (marshal_app_trace t)) m.trace
      ⨟ put_option (put_uint (put_byte 0x18)) m.request_id
      ⨟ put_option (put_uint (put_byte 0x10)) m.resp_len
      ⨟ put_option (put_uint (put_byte 0x8)) m.req_len)

  unfoldable pub marshal_nats_message : NatsMessage → Marshal
  marshal_nats_message m = sized (
      put_bytes m.unknown_fields
      ⨟ put_nonempty (put_byte 0x1a) m.payload
      ⨟ put_nonempty (put_byte 0x12) m.reply_to
      ⨟ put_nonempty (put_byte 0xa) m.subject)

  unfoldable pub marshal_match_pattern : Bytes → Marshal
  marshal_match_pattern s = sized (put_str (put_byte 0xa) s)

  unfoldable pub marshal_zmtp_message : ZmtpMessage → Marshal
  marshal_zmtp_message m = sized (
      put_bytes m.unknown_fields
      ⨟ put_option (λ s. nested (marshal_match_pattern s) (λ size. skip)) m.match_pattern
      ⨟ put_nonempty (put_byte 0x12) m.payload)
