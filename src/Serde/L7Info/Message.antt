-- ===== src/Serde/L7Info/Message.antt =====
-- sdk/serde.go, serializeL7ProtocolInfo: the message that is made of one result.
use deepflow_wasm_go_sdk.Prelude.{ℕ, Option, none, some, [], map, ◌==◌, if◌then◌else◌}
use mathlib.Core.Option
use deepflow_wasm_go_sdk.Prelude.Int.{ℤ, pos, to_uint32}
use deepflow_wasm_go_sdk.Host.{
  Request, Response, Trace, KeyVal, L7ProtocolInfo, direction_request, direction_response,
  resp_status_ok, resp_status_timeout, resp_status_server_err, resp_status_client_err,
  resp_status_unknown,
}
use deepflow_wasm_go_sdk.Pb.Messages.{
  AppRequest, AppResponse, AppTrace, KeyVal as PbKeyVal, Info, AppInfo,
}

-- The enum AppRespStatus, as integers.
abbrev pub resp_ok : ℤ
resp_ok = pos 0

abbrev pub resp_timeout : ℤ
resp_timeout = pos 2

abbrev pub resp_server_error : ℤ
resp_server_error = pos 3

abbrev pub resp_client_error : ℤ
resp_client_error = pos 4

abbrev pub resp_unknown : ℤ
resp_unknown = pos 5

-- A status that is none of the five leaves `status` at its zero value, which is RESP_OK.
unfoldable pub to_pb_status : Option ℕ → ℤ
to_pb_status none = resp_unknown
to_pb_status (some s) =
    if s == resp_status_ok
    then resp_ok
    else if s == resp_status_timeout
    then resp_timeout
    else if s == resp_status_server_err
    then resp_server_error
    else if s == resp_status_client_err
    then resp_client_error
    else if s == resp_status_unknown
    then resp_unknown
    else resp_ok

unfoldable pub to_app_request : Request → AppRequest
to_app_request r = record {
  version = some r.version;
  type = some r.req_type;
  domain = some r.domain;
  resource = some r.resource;
  endpoint = some r.endpoint;
  unknown_fields = [];
}

unfoldable pub to_app_response : Response → AppResponse
to_app_response r = record {
  status = some (to_pb_status r.status);
  code = r.code;
  exception = some r.exception;
  result = some r.result;
  type = some r.req_type;
  endpoint = some r.endpoint;
  unknown_fields = [];
}

-- The two conditions on info.Req, info.Resp and the direction, by the cases of the two pointers.
unfoldable pub to_info : Option Request → Option Response → ℕ → Option Info
to_info none none direction = none
to_info (some r) none direction = some (Info.req (some (to_app_request r)))
to_info none (some p) direction = some (Info.resp (some (to_app_response p)))
to_info (some r) (some p) direction =
    if direction == direction_request
    then some (Info.req (some (to_app_request r)))
    else if direction == direction_response
    then some (Info.resp (some (to_app_response p)))
    else none

unfoldable pub to_app_trace : Trace → AppTrace
to_app_trace t = record {
  trace_id = some t.trace_id;
  span_id = some t.span_id;
  parent_span_id = some t.parent_span_id;
  x_request_id = some t.x_request_id;
  http_proxy_client = some t.http_proxy_client;
  trace_ids = t.trace_ids;
  unknown_fields = [];
}

unfoldable pub to_key_val : KeyVal → PbKeyVal
to_key_val kv = record { key = kv.key; val = kv.val; unknown_fields = [] }

-- IsEnd of the message is not set.
unfoldable pub to_app_info : L7ProtocolInfo → ℕ → AppInfo
to_app_info i direction = record {
  req_len = Option.map to_uint32 i.req_len;
  resp_len = Option.map to_uint32 i.resp_len;
  request_id = i.request_id;
  info = to_info i.req i.resp direction;
  trace = Option.map to_app_trace i.trace;
  protocol_str = some i.l7_protocol_str;
  is_end = none;
  is_async = i.is_async;
  is_reversed = i.is_reversed;
  attributes = map to_key_val i.kv;
  biz_type = some i.biz_type;
  biz_code = some i.biz_code;
  biz_scenario = some i.biz_scenario;
  biz_response_code = some i.biz_response_code;
  unknown_fields = [];
}
