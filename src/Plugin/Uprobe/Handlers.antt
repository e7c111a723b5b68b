-- ===== src/Plugin/Uprobe/Handlers.antt =====
-- example/go_http2_uprobe/go_http2_uprobe.go: the methods of the parser.
use deepflow_wasm_go_sdk.Prelude.{ℕ, not, ◌&&◌, Option, none, some, [], ◌∷◌, ◌==◌, if◌then◌else◌}
use deepflow_wasm_go_sdk.Prelude.Text.{codes}
use deepflow_wasm_go_sdk.Go.Slices.{Bytes}
use deepflow_wasm_go_sdk.Host.{
  ParseCtx, L7ProtocolInfo, ebpf_go_http2_uprobe, ebpf_go_http2_uprobe_data, direction_request,
  direction_response,
}
use deepflow_wasm_go_sdk.Agent.{HostFunctions, Vm, pure, ◌>>=◌, or_panic}
use deepflow_wasm_go_sdk.Pb.Unmarshal.{Skip}
use deepflow_wasm_go_sdk.Parser.Action.{Action, action_next, action_abort}
use deepflow_wasm_go_sdk.Parser.Hooks.{hook_point_payload_parse}
use deepflow_wasm_go_sdk.Parser.Default.{no_check, default_parser}
use deepflow_wasm_go_sdk.Parser.Interface.{Parser, Check}
use deepflow_wasm_go_sdk.Plugin.{
  Returned, value, error, checked, one_info, payload_or, payload_or_abort, or_abort,
}
use deepflow_wasm_go_sdk.Plugin.Uprobe.{
  Orders, go_http2_ebpf_protocol, parse_header, parse_data, on_header, header_info, response_info,
  request_info,
}

abbrev or_give_up : (Bytes → L7ProtocolInfo) → Option Bytes → Option Action
or_give_up f none = some action_abort
or_give_up f (some field) = some (one_info (f field))

module _ {H : Type 0} (host : HostFunctions H) (orders : Orders) where
  abbrev header_check : Returned (ℕ × Bytes × Bytes) → Check
  header_check (error e) = no_check
  header_check (value v) = checked go_http2_ebpf_protocol (codes "ebpf_go_http2")

  unfoldable pub on_check_payload : ParseCtx → Vm H (ParseCtx × Check)
  on_check_payload ctx =
      if not (ctx.ebpf_type == ebpf_go_http2_uprobe)
        && not (ctx.ebpf_type == ebpf_go_http2_uprobe_data)
      then pure (ctx, no_check)
      else payload_or host ctx no_check
          (λ payload. do header ← or_panic (parse_header payload); pure (header_check header))

  abbrev header_action : ℕ × Bytes × Bytes → Vm H (Option Action)
  header_action (stream_id, key, val) = do
    info ← or_panic (on_header (header_info stream_id) key val)
    or_abort (λ info. pure (some (one_info info))) info

  abbrev data_action : ℕ → ℕ × Bytes → Option Action
  data_action direction (stream_id, bytes) =
      if direction == direction_response
      then or_give_up (response_info stream_id) (orders.response_msg bytes)
      else if direction == direction_request
      then or_give_up (request_info stream_id) (orders.request_business_id bytes)
      else some action_abort

  unfoldable pub on_parse_payload : ParseCtx → Vm H (ParseCtx × Option Action)
  on_parse_payload ctx =
      if not (ctx.l7 == go_http2_ebpf_protocol)
      then pure (ctx, some action_next)
      else payload_or_abort host ctx (λ payload.
        if ctx.ebpf_type == ebpf_go_http2_uprobe
        then (do header ← or_panic (parse_header payload); or_abort header_action header)
        else if ctx.ebpf_type == ebpf_go_http2_uprobe_data
        then (do
          found ← or_panic (parse_data payload)
          or_abort (λ d. pure (data_action ctx.direction d)) found)
        else pure (some action_next))

  abbrev pub uprobe_parser : Skip → Parser H
  uprobe_parser s = record (default_parser s none) {
    on_http_req = λ ctx. pure (ctx, some action_next);
    on_http_resp = λ ctx. pure (ctx, some action_next);
    on_check_payload = on_check_payload;
    on_parse_payload = on_parse_payload;
    hook_in = pure (hook_point_payload_parse ∷ []);
  }
