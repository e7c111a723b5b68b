-- ===== src/Pb/Wire.antt =====
-- The MarshalToSizedBufferVT methods write the wire format at the end of the buffer.
use deepflow_wasm_go_sdk.Prelude.{
  ℕ, Bool, append_assoc, ltb, Bool-cases, inl, inr, if◌then◌else◌, length,
}
use deepflow_wasm_go_sdk.Prelude.Int.{ℤ, to_uint64}
use deepflow_wasm_go_sdk.Go.Slices.{Bytes}
use deepflow_wasm_go_sdk.Pb.Messages.{
  AppRequest, AppResponse, AppTrace, KeyVal, Info, req, resp, AppInfo, NatsMessage, ZmtpMessage,
}
use deepflow_wasm_go_sdk.Pb.Varint.{Varint}
use deepflow_wasm_go_sdk.Pb.Writer.{
  Writer, Marshal, skip, ◌⨟◌, put_byte, nested, Prepends, Encodes, skip-Prepends,
  put_bytes-Prepends, put_byte-Prepends, ◌▷◌, put_option-Prepends, put_each-Prepends, sized-Encodes,
  nested-Prepends,
}
use deepflow_wasm_go_sdk.Pb.Marshal.{
  put_varint, put_tag2, put_str, put_uint, put_int, put_bool, put_nonempty, put_message,
  marshal_app_request, marshal_app_response, marshal_app_trace, marshal_key_val,
  marshal_app_info_req, marshal_app_info_resp, marshal_info, marshal_app_info, marshal_nats_message,
  marshal_match_pattern, marshal_zmtp_message,
}
use deepflow_wasm_go_sdk.Pb.Format.{
  tag1, tag2, str_bytes, uint_bytes, int_bytes, bool_bytes, nonempty_bytes, app_request_bytes,
  app_response_bytes, app_trace_bytes, key_val_bytes, info_bytes, trace_bytes, attribute_bytes,
  app_info_bytes, nats_message_bytes, zmtp_message_bytes,
}

tag2-Prepends : (a b : ℕ) → Prepends (put_tag2 b a) (tag2 a b)
tag2-Prepends a b = put_byte-Prepends b ▷ put_byte-Prepends a

module _ (v : Varint) where
  open v use {varint, size_of_varint, length-varint, encode_varint_lem}

  varint-Prepends : (n : ℕ) → Prepends (put_varint v n) (varint n)
  varint-Prepends n = record { run = λ buf i h k. encode_varint_lem buf i n h k }

  module _ {t : Writer} {tag : Bytes} (p : Prepends t tag) where
    str-Prepends : (s : Bytes) → Prepends (put_str v t s) (str_bytes v tag s)
    str-Prepends s = put_bytes-Prepends s ▷ varint-Prepends (length s) ▷ p

    uint-Prepends : (n : ℕ) → Prepends (put_uint v t n) (uint_bytes v tag n)
    uint-Prepends n = varint-Prepends n ▷ p

    int-Prepends : (z : ℤ) → Prepends (put_int v t z) (int_bytes v tag z)
    int-Prepends z = varint-Prepends (to_uint64 z) ▷ p

    bool-Prepends : (b : Bool) → Prepends (put_bool t b) (bool_bytes tag b)
    bool-Prepends b = put_byte-Prepends (if b then 1 else 0) ▷ p

    nonempty-Prepends : (s : Bytes) → Prepends (put_nonempty v t s) (nonempty_bytes v tag s)
    unfolding put_nonempty nonempty_bytes
    nonempty-Prepends s = elim (Bool-cases (ltb 0 (length s))) [
      | inl h ↦ rw h (str-Prepends s)
      | inr h ↦ rw h skip-Prepends
    ]

  pub app_request-Encodes :
      (m : AppRequest) → Encodes (marshal_app_request v m) (app_request_bytes v m)
  unfolding marshal_app_request app_request_bytes
  app_request-Encodes m = sized-Encodes (
      put_bytes-Prepends m.unknown_fields
      ▷ put_option-Prepends (str-Prepends (put_byte-Prepends 0x2a)) m.endpoint
      ▷ put_option-Prepends (str-Prepends (put_byte-Prepends 0x22)) m.resource
      ▷ put_option-Prepends (str-Prepends (put_byte-Prepends 0x1a)) m.domain
      ▷ put_option-Prepends (str-Prepends (put_byte-Prepends 0x12)) m.type
      ▷ put_option-Prepends (str-Prepends (put_byte-Prepends 0xa)) m.version)

  pub app_response-Encodes :
      (m : AppResponse) → Encodes (marshal_app_response v m) (app_response_bytes v m)
  unfolding marshal_app_response app_response_bytes
  app_response-Encodes m = sized-Encodes (
      put_bytes-Prepends m.unknown_fields
      ▷ put_option-Prepends (str-Prepends (put_byte-Prepends 0x32)) m.endpoint
      ▷ put_option-Prepends (str-Prepends (put_byte-Prepends 0x2a)) m.type
      ▷ put_option-Prepends (str-Prepends (put_byte-Prepends 0x22)) m.result
      ▷ put_option-Prepends (str-Prepends (put_byte-Prepends 0x1a)) m.exception
      ▷ put_option-Prepends (int-Prepends (put_byte-Prepends 0x10)) m.code
      ▷ put_option-Prepends (int-Prepends (put_byte-Prepends 0x8)) m.status)

  pub app_trace-Encodes : (m : AppTrace) → Encodes (marshal_app_trace v m) (app_trace_bytes v m)
  unfolding marshal_app_trace app_trace_bytes
  app_trace-Encodes m = sized-Encodes (
      put_bytes-Prepends m.unknown_fields
      ▷ put_each-Prepends (str-Prepends (put_byte-Prepends 0x32)) m.trace_ids
      ▷ put_option-Prepends (str-Prepends (put_byte-Prepends 0x2a)) m.http_proxy_client
      ▷ put_option-Prepends (str-Prepends (put_byte-Prepends 0x22)) m.x_request_id
      ▷ put_option-Prepends (str-Prepends (put_byte-Prepends 0x1a)) m.parent_span_id
      ▷ put_option-Prepends (str-Prepends (put_byte-Prepends 0x12)) m.span_id
      ▷ put_option-Prepends (str-Prepends (put_byte-Prepends 0xa)) m.trace_id)

  pub key_val-Encodes : (m : KeyVal) → Encodes (marshal_key_val v m) (key_val_bytes v m)
  unfolding marshal_key_val key_val_bytes
  key_val-Encodes m = sized-Encodes (
      put_bytes-Prepends m.unknown_fields
      ▷ nonempty-Prepends (put_byte-Prepends 0x12) m.val
      ▷ nonempty-Prepends (put_byte-Prepends 0xa) m.key)

  message-Prepends :
      {t : Writer} {tag : Bytes} {m : Marshal} {xs : Bytes}
      → Prepends t tag
      → Encodes m xs
      → Prepends (put_message v t m) (str_bytes v tag xs)
  message-Prepends {t} {tag} {m} {xs} p e =
      rw (← append_assoc tag (varint (length xs)) xs)
        (nested-Prepends (λ size. put_varint v size ⨟ t) e (varint-Prepends (length xs) ▷ p))

  info-Encodes : (x : Info) → Encodes (marshal_info v x) (info_bytes v x)
  unfolding marshal_info marshal_app_info_req marshal_app_info_resp info_bytes
  info-Encodes (req r) = sized-Encodes (
      put_option-Prepends (λ m. message-Prepends (put_byte-Prepends 0x52) (app_request-Encodes m))
        r)
  info-Encodes (resp r) = sized-Encodes (
      put_option-Prepends (λ m. message-Prepends (put_byte-Prepends 0x5a) (app_response-Encodes m))
        r)

  info-Prepends : (x : Info) → Prepends (nested (marshal_info v x) (λ size. skip)) (info_bytes v x)
  info-Prepends x = nested-Prepends (λ size. skip) (info-Encodes x) skip-Prepends

  trace-Prepends :
      (t : AppTrace)
      → Prepends (put_message v (put_byte 0x62) (marshal_app_trace v t)) (trace_bytes v t)
  unfolding trace_bytes
  trace-Prepends t = message-Prepends (put_byte-Prepends 0x62) (app_trace-Encodes t)

  attribute-Prepends :
      (kv : KeyVal)
      → Prepends (put_message v (put_tag2 0x1 0xfa) (marshal_key_val v kv)) (attribute_bytes v kv)
  unfolding attribute_bytes
  attribute-Prepends kv = message-Prepends (tag2-Prepends 0xfa 0x1) (key_val-Encodes kv)

  pub app_info-Encodes : (m : AppInfo) → Encodes (marshal_app_info v m) (app_info_bytes v m)
  unfolding marshal_app_info app_info_bytes
  app_info-Encodes m = sized-Encodes (
      put_bytes-Prepends m.unknown_fields
      ▷ put_option-Prepends info-Prepends m.info
      ▷ put_option-Prepends (str-Prepends (tag2-Prepends 0x9a 0x2)) m.biz_response_code
      ▷ put_option-Prepends (str-Prepends (tag2-Prepends 0x92 0x2)) m.biz_scenario
      ▷ put_option-Prepends (str-Prepends (tag2-Prepends 0x8a 0x2)) m.biz_code
      ▷ put_option-Prepends (uint-Prepends (tag2-Prepends 0x80 0x2)) m.biz_type
      ▷ put_each-Prepends attribute-Prepends m.attributes
      ▷ put_option-Prepends (bool-Prepends (tag2-Prepends 0xb8 0x1)) m.is_reversed
      ▷ put_option-Prepends (bool-Prepends (tag2-Prepends 0xb0 0x1)) m.is_async
      ▷ put_option-Prepends (bool-Prepends (tag2-Prepends 0xa8 0x1)) m.is_end
      ▷ put_option-Prepends (str-Prepends (put_byte-Prepends 0x6a)) m.protocol_str
      ▷ put_option-Prepends trace-Prepends m.trace
      ▷ put_option-Prepends (uint-Prepends (put_byte-Prepends 0x18)) m.request_id
      ▷ put_option-Prepends (uint-Prepends (put_byte-Prepends 0x10)) m.resp_len
      ▷ put_option-Prepends (uint-Prepends (put_byte-Prepends 0x8)) m.req_len)

  pub nats_message-Encodes :
      (m : NatsMessage) → Encodes (marshal_nats_message v m) (nats_message_bytes v m)
  unfolding marshal_nats_message nats_message_bytes
  nats_message-Encodes m = sized-Encodes (
      put_bytes-Prepends m.unknown_fields
      ▷ nonempty-Prepends (put_byte-Prepends 0x1a) m.payload
      ▷ nonempty-Prepends (put_byte-Prepends 0x12) m.reply_to
      ▷ nonempty-Prepends (put_byte-Prepends 0xa) m.subject)

  pattern-Prepends :
      (s : Bytes)
      → Prepends (nested (marshal_match_pattern v s) (λ size. skip)) (str_bytes v (tag1 0xa) s)
  unfolding marshal_match_pattern
  pattern-Prepends s =
      nested-Prepends (λ size. skip) (sized-Encodes (str-Prepends (put_byte-Prepends 0xa) s))
        skip-Prepends

  pub zmtp_message-Encodes :
      (m : ZmtpMessage) → Encodes (marshal_zmtp_message v m) (zmtp_message_bytes v m)
  unfolding marshal_zmtp_message zmtp_message_bytes
  zmtp_message-Encodes m = sized-Encodes (
      put_bytes-Prepends m.unknown_fields
      ▷ put_option-Prepends pattern-Prepends m.match_pattern
      ▷ nonempty-Prepends (put_byte-Prepends 0x12) m.payload)
