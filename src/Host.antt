-- ===== src/Host.antt =====
-- sdk/host.go: the contexts that the agent hands to a plugin and the results that it takes back.
-- A Go string is the list of its bytes, a pointer is an Option, an int an integer, and a net.IPAddr
-- the bytes of its IP (the zone is never set).
use deepflow_wasm_go_sdk.Prelude.{ℕ, ◌&&◌, Bool, false, Option, List, ◌==◌, if◌then◌else◌}
use deepflow_wasm_go_sdk.Prelude.Int.{ℤ}
use deepflow_wasm_go_sdk.Go.Slices.{Bytes}

abbrev pub udp : ℕ
udp = 17

abbrev pub tcp : ℕ
tcp = 6

abbrev pub direction_request : ℕ
direction_request = 0

abbrev pub direction_response : ℕ
direction_response = 1

abbrev pub ebpf_trace_point : ℕ
ebpf_trace_point = 0

abbrev pub ebpf_tls_uprobe : ℕ
ebpf_tls_uprobe = 1

abbrev pub ebpf_go_http2_uprobe : ℕ
ebpf_go_http2_uprobe = 2

abbrev pub ebpf_go_http2_uprobe_data : ℕ
ebpf_go_http2_uprobe_data = 5

abbrev pub ebpf_unix_socket : ℕ
ebpf_unix_socket = 8

abbrev pub ebpf_none : ℕ
ebpf_none = 255

abbrev pub resp_status_ok : ℕ
resp_status_ok = 0

abbrev pub resp_status_timeout : ℕ
resp_status_timeout = 2

abbrev pub resp_status_server_err : ℕ
resp_status_server_err = 3

abbrev pub resp_status_client_err : ℕ
resp_status_client_err = 4

abbrev pub resp_status_unknown : ℕ
resp_status_unknown = 5

abbrev pub protocol_parse : ℕ
protocol_parse = 0

abbrev pub page_size : ℕ
page_size = 65536

-- `payload` is nil until GetPayload has read it.
pub record ParseCtx : Type 0 where
  pub src_ip : Bytes
  pub src_port : ℕ
  pub dst_ip : Bytes
  pub dst_port : ℕ
  pub l4 : ℕ
  pub l7 : ℕ
  pub ebpf_type : ℕ
  pub time : ℕ
  pub direction : ℕ
  pub proc_name : Bytes
  pub flow_id : ℕ
  pub buf_size : ℕ
  pub payload : Option Bytes

pub record HttpReqCtx : Type 0 where
  pub base_ctx : ParseCtx
  pub path : Bytes
  pub host : Bytes
  pub user_agent : Bytes
  pub referer : Bytes

pub record HttpRespCtx : Type 0 where
  pub base_ctx : ParseCtx
  pub code : ℕ
  pub status : ℕ
  pub endpoint : Bytes

pub record CustomMessageCtx : Type 0 where
  pub base_ctx : ParseCtx
  pub hook_point : ℕ
  pub type_code : ℕ
  pub payload : Bytes

-- (*CustomMessageCtx).CheckParseProtocol
unfoldable pub check_parse_protocol : CustomMessageCtx → ℕ → Bool → Bool
check_parse_protocol ctx protocol is_request =
    if is_request then ctx.hook_point == protocol_parse && ctx.type_code == protocol else false

pub record Request : Type 0 where
  pub version : Bytes
  pub req_type : Bytes
  pub domain : Bytes
  pub resource : Bytes
  pub endpoint : Bytes

pub record Response : Type 0 where
  pub status : Option ℕ
  pub code : Option ℤ
  pub result : Bytes
  pub exception : Bytes
  pub req_type : Bytes
  pub endpoint : Bytes

pub record Trace : Type 0 where
  pub trace_id : Bytes
  pub span_id : Bytes
  pub parent_span_id : Bytes
  pub x_request_id : Bytes
  pub http_proxy_client : Bytes
  pub trace_ids : List Bytes

-- The KeyVal of sdk/parser.go.
pub record KeyVal : Type 0 where
  pub key : Bytes
  pub val : Bytes

pub record L7ProtocolInfo : Type 0 where
  pub req_len : Option ℤ
  pub resp_len : Option ℤ
  pub request_id : Option ℕ
  pub req : Option Request
  pub resp : Option Response
  pub trace : Option Trace
  pub kv : List KeyVal
  pub protocol_merge : Bool
  pub is_end : Bool
  pub is_async : Option Bool
  pub is_reversed : Option Bool
  pub biz_type : ℕ
  pub biz_code : Bytes
  pub biz_scenario : Bytes
  pub biz_response_code : Bytes
  pub l7_protocol_str : Bytes
