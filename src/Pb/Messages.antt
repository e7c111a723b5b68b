-- ===== src/Pb/Messages.antt =====
-- sdk/pb/WasmPluginApi.pb.go: the messages. A pointer is an Option, an enum and an int32 an integer,
-- and `unknown_fields` the bytes of unknownFields, where nil and an empty slice are not told apart.
use deepflow_wasm_go_sdk.Prelude.{ℕ, Bool, Option, List}
use deepflow_wasm_go_sdk.Prelude.Int.{ℤ}
use deepflow_wasm_go_sdk.Go.Slices.{Bytes}

pub record AppRequest : Type 0 where
  pub version : Option Bytes
  pub type : Option Bytes
  pub domain : Option Bytes
  pub resource : Option Bytes
  pub endpoint : Option Bytes
  pub unknown_fields : Bytes

pub record AppResponse : Type 0 where
  pub status : Option ℤ
  pub code : Option ℤ
  pub exception : Option Bytes
  pub result : Option Bytes
  pub type : Option Bytes
  pub endpoint : Option Bytes
  pub unknown_fields : Bytes

pub record AppTrace : Type 0 where
  pub trace_id : Option Bytes
  pub span_id : Option Bytes
  pub parent_span_id : Option Bytes
  pub x_request_id : Option Bytes
  pub http_proxy_client : Option Bytes
  pub trace_ids : List Bytes
  pub unknown_fields : Bytes

pub record KeyVal : Type 0 where
  pub key : Bytes
  pub val : Bytes
  pub unknown_fields : Bytes

-- The oneof `info`: the wrappers AppInfo_Req and AppInfo_Resp.
pub data Info : Type 0 where
  req : Option AppRequest → Info
  resp : Option AppResponse → Info

pub record AppInfo : Type 0 where
  pub req_len : Option ℕ
  pub resp_len : Option ℕ
  pub request_id : Option ℕ
  pub info : Option Info
  pub trace : Option AppTrace
  pub protocol_str : Option Bytes
  pub is_end : Option Bool
  pub is_async : Option Bool
  pub is_reversed : Option Bool
  pub attributes : List KeyVal
  pub biz_type : Option ℕ
  pub biz_code : Option Bytes
  pub biz_scenario : Option Bytes
  pub biz_response_code : Option Bytes
  pub unknown_fields : Bytes

pub record NatsMessage : Type 0 where
  pub subject : Bytes
  pub reply_to : Bytes
  pub payload : Bytes
  pub unknown_fields : Bytes

-- The oneof `subscription` has the one wrapper ZmtpMessage_MatchPattern.
pub record ZmtpMessage : Type 0 where
  pub match_pattern : Option Bytes
  pub payload : Bytes
  pub unknown_fields : Bytes
