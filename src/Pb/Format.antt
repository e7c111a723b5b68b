-- ===== src/Pb/Format.antt =====
-- The protobuf wire format: the bytes of each message as the encodings of its fields, in the order
-- in which they stand in the buffer.
use deepflow_wasm_go_sdk.Prelude.{ℕ, Bool, [], ◌∷◌, ◌++◌, ltb, if◌then◌else◌, length}
use deepflow_wasm_go_sdk.Prelude.Int.{ℤ, to_uint64}
use deepflow_wasm_go_sdk.Go.Slices.{Bytes}
use deepflow_wasm_go_sdk.Pb.Messages.{
  AppRequest, AppResponse, AppTrace, KeyVal, Info, req, resp, AppInfo, NatsMessage, ZmtpMessage,
}
use deepflow_wasm_go_sdk.Pb.Varint.{Varint}
use deepflow_wasm_go_sdk.Pb.Writer.{option_bytes, each_bytes}

-- Tags of one byte and of two.
abbrev pub tag1 : ℕ → Bytes
tag1 a = a ∷ []

abbrev pub tag2 : ℕ → ℕ → Bytes
tag2 a b = a ∷ b ∷ []

abbrev pub bool_bytes : Bytes → Bool → Bytes
bool_bytes tag b = tag ++ (if b then 1 else 0) ∷ []

module _ (v : Varint) where
  open v use {varint}

  abbrev pub str_bytes : Bytes → Bytes → Bytes
  str_bytes tag s = tag ++ (varint (length s) ++ s)

  abbrev pub uint_bytes : Bytes → ℕ → Bytes
  uint_bytes tag n = tag ++ varint n

  abbrev pub int_bytes : Bytes → ℤ → Bytes
  int_bytes tag z = tag ++ varint (to_uint64 z)

  unfoldable pub nonempty_bytes : Bytes → Bytes → Bytes
  nonempty_bytes tag s = if ltb 0 (length s) then str_bytes tag s else []

  unfoldable pub app_request_bytes : AppRequest → Bytes
  app_request_bytes m =
      option_bytes (str_bytes (tag1 0xa)) m.version
      ++ (option_bytes (str_bytes (tag1 0x12)) m.type
          ++ (option_bytes (str_bytes (tag1 0x1a)) m.domain
              ++ (option_bytes (str_bytes (tag1 0x22)) m.resource
                  ++ (option_bytes (str_bytes (tag1 0x2a)) m.endpoint ++ m.unknown_fields))))

  unfoldable pub app_response_bytes : AppResponse → Bytes
  app_response_bytes m =
      option_bytes (int_bytes (tag1 0x8)) m.status
      ++ (option_bytes (int_bytes (tag1 0x10)) m.code
          ++ (option_bytes (str_bytes (tag1 0x1a)) m.exception
              ++ (option_bytes (str_bytes (tag1 0x22)) m.result
                  ++ (option_bytes (str_bytes (tag1 0x2a)) m.type
                      ++ (option_bytes (str_bytes (tag1 0x32)) m.endpoint ++ m.unknown_fields)))))

  unfoldable pub app_trace_bytes : AppTrace → Bytes
  app_trace_bytes m =
      option_bytes (str_bytes (tag1 0xa)) m.trace_id
      ++ (option_bytes (str_bytes (tag1 0x12)) m.span_id
          ++ (option_bytes (str_bytes (tag1 0x1a)) m.parent_span_id
              ++ (option_bytes (str_bytes (tag1 0x22)) m.x_request_id
                  ++ (option_bytes (str_bytes (tag1 0x2a)) m.http_proxy_client
                      ++ (each_bytes (str_bytes (tag1 0x32)) m.trace_ids ++ m.unknown_fields)))))

  unfoldable pub key_val_bytes : KeyVal → Bytes
  key_val_bytes m =
      nonempty_bytes (tag1 0xa) m.key ++ (nonempty_bytes (tag1 0x12) m.val ++ m.unknown_fields)

  -- A message in a field: its length and its bytes.
  unfoldable pub info_bytes : Info → Bytes
  info_bytes (req r) = option_bytes (λ m. str_bytes (tag1 0x52) (app_request_bytes m)) r
  info_bytes (resp r) = option_bytes (λ m. str_bytes (tag1 0x5a) (app_response_bytes m)) r

  unfoldable pub trace_bytes : AppTrace → Bytes
  trace_bytes t = str_bytes (tag1 0x62) (app_trace_bytes t)

  unfoldable pub attribute_bytes : KeyVal → Bytes
  attribute_bytes kv = str_bytes (tag2 0xfa 0x1) (key_val_bytes kv)

  unfoldable pub app_info_bytes : AppInfo → Bytes
  app_info_bytes m =
      option_bytes (uint_bytes (tag1 0x8)) m.req_len
      ++ (option_bytes (uint_bytes (tag1 0x10)) m.resp_len
          ++ (option_bytes (uint_bytes (tag1 0x18)) m.request_id
              ++ (option_bytes trace_bytes m.trace
                  ++ (option_bytes (str_bytes (tag1 0x6a)) m.protocol_str
                      ++ (option_bytes (bool_bytes (tag2 0xa8 0x1)) m.is_end
                          ++ (option_bytes (bool_bytes (tag2 0xb0 0x1)) m.is_async
                              ++ (option_bytes (bool_bytes (tag2 0xb8 0x1)) m.is_reversed
                                  ++ (each_bytes attribute_bytes m.attributes
                                      ++ (option_bytes (uint_bytes (tag2 0x80 0x2)) m.biz_type
                                          ++ (option_bytes (str_bytes (tag2 0x8a 0x2)) m.biz_code
                                              ++ (option_bytes (str_bytes (tag2 0x92 0x2))
                                                    m.biz_scenario
                                                  ++ (option_bytes (str_bytes (tag2 0x9a 0x2))
                                                        m.biz_response_code
                                                      ++ (option_bytes info_bytes m.info
                                                          ++ m.unknown_fields)))))))))))))

  unfoldable pub nats_message_bytes : NatsMessage → Bytes
  nats_message_bytes m =
      nonempty_bytes (tag1 0xa) m.subject
      ++ (nonempty_bytes (tag1 0x12) m.reply_to
          ++ (nonempty_bytes (tag1 0x1a) m.payload ++ m.unknown_fields))

  unfoldable pub zmtp_message_bytes : ZmtpMessage → Bytes
  zmtp_message_bytes m =
      nonempty_bytes (tag1 0x12) m.payload
      ++ (option_bytes (str_bytes (tag1 0xa)) m.match_pattern ++ m.unknown_fields)
