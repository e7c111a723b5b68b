-- ===== src/Plugin/Krpc/Handlers.antt =====
-- example/krpc/krpc.go: the methods of the parser.
use deepflow_wasm_go_sdk.Prelude.{
  ℕ, Bool, true, false, not, ◌||◌, Option, none, some, [], ◌∷◌, ◌++◌, ◌==◌, if◌then◌else◌,
}
use deepflow_wasm_go_sdk.Prelude.Int.{pos, to_uint32}
use deepflow_wasm_go_sdk.Prelude.Text.{codes, bytes_eq}
use deepflow_wasm_go_sdk.Go.Strings.{format_int}
use deepflow_wasm_go_sdk.Go.Slices.{Bytes}
use deepflow_wasm_go_sdk.Host.{
  ParseCtx, Request, Response, Trace, L7ProtocolInfo, tcp, direction_request, direction_response,
}
use deepflow_wasm_go_sdk.Agent.{HostFunctions, Vm, pure, ◌>>=◌, or_panic, or_trap}
use deepflow_wasm_go_sdk.Agent.Payload.{get_payload}
use deepflow_wasm_go_sdk.Pb.Unmarshal.{Skip}
use deepflow_wasm_go_sdk.Parser.Action.{
  Action, action_next, action_abort, empty_info, empty_request, empty_response,
}
use deepflow_wasm_go_sdk.Parser.Hooks.{hook_point_payload_parse}
use deepflow_wasm_go_sdk.Parser.Default.{no_check, default_parser}
use deepflow_wasm_go_sdk.Parser.Interface.{Parser, Check}
use deepflow_wasm_go_sdk.Plugin.{checked, one_info, payload_or_abort}
use deepflow_wasm_go_sdk.Plugin.Krpc.{KrpcPb, KrpcInfo, parse, krpc_protocol}

abbrev pub empty_krpc_info : KrpcInfo
empty_krpc_info = record {
  rrt = 0;
  msg_type = 0;
  msg_id = pos 0;
  serv_id = pos 0;
  sequence = pos 0;
  ret_code = pos 0;
  trace_id = [];
  span_id = [];
  parent_span_id = [];
  status = 0;
}

abbrev is_empty : Bytes → Bool
is_empty s = bytes_eq s []

abbrev trace_of : KrpcInfo → Option Trace
trace_of k =
    if not (is_empty k.trace_id) || not (is_empty k.span_id) || not (is_empty k.parent_span_id)
    then some (record {
      trace_id = k.trace_id;
      span_id = k.span_id;
      parent_span_id = k.parent_span_id;
      x_request_id = [];
      http_proxy_client = [];
      trace_ids = [];
    })
    else none

abbrev pub request_of : KrpcInfo → Request
request_of k = record empty_request {
  req_type = format_int k.msg_id;
  resource = format_int k.serv_id;
  endpoint = format_int k.serv_id ++ codes "/" ++ format_int k.msg_id;
}

abbrev response_of : KrpcInfo → Response
response_of k = record empty_response { status = some k.status; code = some k.ret_code }

abbrev pub info_of : KrpcInfo → Option Request → Option Response → L7ProtocolInfo
info_of k req resp = record empty_info {
  request_id = some (to_uint32 k.sequence);
  req = req;
  resp = resp;
  trace = trace_of k;
}

-- The result by the direction; any other direction panics.
unfoldable pub answer_info : ℕ → KrpcInfo → Option L7ProtocolInfo
answer_info direction k =
    if direction == direction_request
    then some (info_of k (some (request_of k)) none)
    else if direction == direction_response
    then some (info_of k none (some (response_of k)))
    else none

module _ {H : Type 0} (host : HostFunctions H) (pb : KrpcPb) where
  abbrev check_of : Option KrpcInfo → Check
  check_of none = no_check
  check_of (some k) =
      if not (k.msg_type == direction_request)
      then no_check
      else checked krpc_protocol (codes "KRPC")

  abbrev pub check_payload : ℕ → Option Bytes → Vm H Check
  check_payload l4 none = pure no_check
  check_payload l4 (some payload) =
      if not (l4 == tcp)
      then pure no_check
      else (do info ← or_panic (parse pb empty_krpc_info payload true); pure (check_of info))

  unfoldable pub on_check_payload : ParseCtx → Vm H (ParseCtx × Check)
  on_check_payload ctx = do
    (ctx', payload) ← get_payload host ctx
    check ← check_payload ctx'.l4 payload
    pure (ctx', check)

  abbrev pub action_of : ℕ → Option KrpcInfo → Vm H (Option Action)
  action_of direction none = pure (some action_abort)
  action_of direction (some k) = do
    info ← or_trap (answer_info direction k)
    pure (some (one_info info))

  unfoldable pub on_parse_payload : ParseCtx → Vm H (ParseCtx × Option Action)
  on_parse_payload ctx =
      if not (ctx.l7 == krpc_protocol)
      then pure (ctx, some action_next)
      else payload_or_abort host ctx (λ payload. do
        info ← or_panic (parse pb empty_krpc_info payload false)
        action_of ctx.direction info)

  abbrev pub krpc_parser : Skip → Parser H
  krpc_parser s = record (default_parser s none) {
    on_http_req = λ ctx. pure (ctx, some action_next);
    on_http_resp = λ ctx. pure (ctx, some action_next);
    on_check_payload = on_check_payload;
    on_parse_payload = on_parse_payload;
    hook_in = pure (hook_point_payload_parse ∷ []);
  }
