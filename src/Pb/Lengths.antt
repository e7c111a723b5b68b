-- ===== src/Pb/Lengths.antt =====
-- The SizeVT methods give the numbers of bytes that the marshallers write.
use deepflow_wasm_go_sdk.Prelude.{
  ℕ, ◌+◌, ◌≡◌, refl, ap, Bool, Option, none, some, List, [], ◌∷◌, ◌++◌, arith, length,
  length-append,
}
use deepflow_wasm_go_sdk.Prelude.Int.{ℤ, to_uint64}
use deepflow_wasm_go_sdk.Go.Slices.{Bytes}
use deepflow_wasm_go_sdk.Pb.Messages.{
  AppRequest, AppResponse, AppTrace, KeyVal, Info, req, resp, AppInfo, NatsMessage, ZmtpMessage,
}
use deepflow_wasm_go_sdk.Pb.Varint.{Varint}
use deepflow_wasm_go_sdk.Pb.Writer.{option_bytes, each_bytes}
use deepflow_wasm_go_sdk.Pb.Format.{
  tag1, tag2, str_bytes, uint_bytes, int_bytes, bool_bytes, nonempty_bytes, app_request_bytes,
  app_response_bytes, app_trace_bytes, key_val_bytes, info_bytes, trace_bytes, attribute_bytes,
  app_info_bytes, nats_message_bytes, zmtp_message_bytes,
}
use deepflow_wasm_go_sdk.Pb.Size.{
  size_len, size_str, size_uint, size_int, size_bool, size_strs, size_nonempty, size_app_request,
  size_app_response, size_app_trace, size_key_val, size_attributes, size_app_info_req,
  size_app_info_resp, size_info, size_trace, size_app_info, size_nats_message, size_match_pattern,
  size_subscription, size_zmtp_message,
}

-- for `omega`, on bytes
length-append_bytes : (xs ys : Bytes) → length (xs ++ ys) ≡ length xs + length ys
length-append_bytes = length-append

ruleset lengths = (arith, length-append_bytes)

module _ (v : Varint) where
  open v use {varint, size_of_varint, length-varint}

  length-str : (tag s : Bytes) → length (str_bytes v tag s) ≡ size_len v (length tag) (length s)
  length-str tag s = omega (lengths, length-varint (length s))

  length-option_str :
      (tag : Bytes) (o : Option Bytes)
      → length (option_bytes (str_bytes v tag) o) ≡ size_str v (length tag) o
  length-option_str tag none = refl
  length-option_str tag (some s) = length-str tag s

  length-option_uint :
      (tag : Bytes) (o : Option ℕ)
      → length (option_bytes (uint_bytes v tag) o) ≡ size_uint v (length tag) o
  length-option_uint tag none = refl
  length-option_uint tag (some n) = omega (lengths, length-varint n)

  length-option_int :
      (a : ℕ) (o : Option ℤ) → length (option_bytes (int_bytes v (tag1 a)) o) ≡ size_int v o
  length-option_int a none = refl
  length-option_int a (some z) = omega (lengths, length-varint (to_uint64 z))

  length-option_bool :
      (a b : ℕ) (o : Option Bool) → length (option_bytes (bool_bytes (tag2 a b)) o) ≡ size_bool o
  length-option_bool a b none = refl
  length-option_bool a b (some z) = refl

  length-nonempty : (a : ℕ) (s : Bytes) → length (nonempty_bytes v (tag1 a) s) ≡ size_nonempty v s
  unfolding nonempty_bytes
  length-nonempty a s = ground (arith, length-str (tag1 a) s)

  length-strs :
      (tag : Bytes) (ss : List Bytes)
      → length tag ≡ 1
      → length (each_bytes (str_bytes v tag) ss) ≡ size_strs v ss
  length-strs tag [] h = refl
  length-strs tag (s ∷ ss) h = omega (
    arith,
    length-append (str_bytes v tag s) (each_bytes (str_bytes v tag) ss),
    length-str tag s,
    length-strs tag ss h,
    ap (λ (n : ℕ). size_len v n (length s)) h,
  )

  pub length-app_request : (m : AppRequest) → length (app_request_bytes v m) ≡ size_app_request v m
  unfolding app_request_bytes size_app_request
  length-app_request m = omega (
    lengths,
    length-option_str (tag1 0xa) m.version,
    length-option_str (tag1 0x12) m.type,
    length-option_str (tag1 0x1a) m.domain,
    length-option_str (tag1 0x22) m.resource,
    length-option_str (tag1 0x2a) m.endpoint,
  )

  pub length-app_response :
      (m : AppResponse) → length (app_response_bytes v m) ≡ size_app_response v m
  unfolding app_response_bytes size_app_response
  length-app_response m = omega (
    lengths,
    length-option_int 0x8 m.status,
    length-option_int 0x10 m.code,
    length-option_str (tag1 0x1a) m.exception,
    length-option_str (tag1 0x22) m.result,
    length-option_str (tag1 0x2a) m.type,
    length-option_str (tag1 0x32) m.endpoint,
  )

  pub length-app_trace : (m : AppTrace) → length (app_trace_bytes v m) ≡ size_app_trace v m
  unfolding app_trace_bytes size_app_trace
  length-app_trace m = omega (
    lengths,
    length-option_str (tag1 0xa) m.trace_id,
    length-option_str (tag1 0x12) m.span_id,
    length-option_str (tag1 0x1a) m.parent_span_id,
    length-option_str (tag1 0x22) m.x_request_id,
    length-option_str (tag1 0x2a) m.http_proxy_client,
    length-strs (tag1 0x32) m.trace_ids refl,
  )

  pub length-key_val : (m : KeyVal) → length (key_val_bytes v m) ≡ size_key_val v m
  unfolding key_val_bytes size_key_val
  length-key_val m = omega (lengths, length-nonempty 0xa m.key, length-nonempty 0x12 m.val)

  pub length-nats_message :
      (m : NatsMessage) → length (nats_message_bytes v m) ≡ size_nats_message v m
  unfolding nats_message_bytes size_nats_message
  length-nats_message m = omega (
    lengths,
    length-nonempty 0xa m.subject,
    length-nonempty 0x12 m.reply_to,
    length-nonempty 0x1a m.payload,
  )

  length-subscription :
      (o : Option Bytes) → length (option_bytes (str_bytes v (tag1 0xa)) o) ≡ size_subscription v o
  unfolding size_subscription size_match_pattern
  length-subscription none = refl
  length-subscription (some s) = length-str (tag1 0xa) s

  pub length-zmtp_message :
      (m : ZmtpMessage) → length (zmtp_message_bytes v m) ≡ size_zmtp_message v m
  unfolding zmtp_message_bytes size_zmtp_message
  length-zmtp_message m =
      omega (lengths, length-subscription m.match_pattern, length-nonempty 0x12 m.payload)

  length-info : (o : Option Info) → length (option_bytes (info_bytes v) o) ≡ size_info v o
  unfolding info_bytes size_info size_app_info_req size_app_info_resp
  length-info none = refl
  length-info (some (req none)) = refl
  length-info (some (req (some m))) =
      rw (← length-app_request m) (length-str (tag1 0x52) (app_request_bytes v m))
  length-info (some (resp none)) = refl
  length-info (some (resp (some m))) =
      rw (← length-app_response m) (length-str (tag1 0x5a) (app_response_bytes v m))

  length-trace : (o : Option AppTrace) → length (option_bytes (trace_bytes v) o) ≡ size_trace v o
  unfolding trace_bytes size_trace
  length-trace none = refl
  length-trace (some m) = rw (← length-app_trace m) (length-str (tag1 0x62) (app_trace_bytes v m))

  length-attribute : (m : KeyVal) → length (attribute_bytes v m) ≡ size_len v 2 (size_key_val v m)
  unfolding attribute_bytes
  length-attribute m = rw (← length-key_val m) (length-str (tag2 0xfa 0x1) (key_val_bytes v m))

  length-attributes :
      (es : List KeyVal) → length (each_bytes (attribute_bytes v) es) ≡ size_attributes v es
  unfolding size_attributes
  length-attributes [] = refl
  length-attributes (e ∷ es) = omega (
    arith,
    length-append (attribute_bytes v e) (each_bytes (attribute_bytes v) es),
    length-attribute e,
    length-attributes es,
  )

  -- The size of an AppInfo, by the lengths of its parts.
  pub length-app_info : (m : AppInfo) → length (app_info_bytes v m) ≡ size_app_info v m
  unfolding app_info_bytes size_app_info
  length-app_info m = omega (
    lengths,
    length-option_uint (tag1 0x8) m.req_len,
    length-option_uint (tag1 0x10) m.resp_len,
    length-option_uint (tag1 0x18) m.request_id,
    length-info m.info,
    length-trace m.trace,
    length-option_str (tag1 0x6a) m.protocol_str,
    length-option_bool 0xa8 0x1 m.is_end,
    length-option_bool 0xb0 0x1 m.is_async,
    length-option_bool 0xb8 0x1 m.is_reversed,
    length-attributes m.attributes,
    length-option_uint (tag2 0x80 0x2) m.biz_type,
    length-option_str (tag2 0x8a 0x2) m.biz_code,
    length-option_str (tag2 0x92 0x2) m.biz_scenario,
    length-option_str (tag2 0x9a 0x2) m.biz_response_code,
  )
