-- ===== src/Tests/Whole.antt =====
-- Whole calls of the agent on plugins, on an agent of the tests.
use deepflow_wasm_go_sdk.Prelude.{
  All, ◌≤◌, ◌<◌, ◌^◌, ◌≡◌, refl, true, false, some, none, List, [], ◌∷◌, length, take, arith, inl,
}
use deepflow_wasm_go_sdk.Prelude.Int.{pos}
use deepflow_wasm_go_sdk.Prelude.Text.{codes}
use deepflow_wasm_go_sdk.Go.Result.{ok}
use deepflow_wasm_go_sdk.Go.Slices.{Bytes, slice, index}
use deepflow_wasm_go_sdk.Go.Binary.{uint16, uint32, uint64}
use deepflow_wasm_go_sdk.Host.{ParseCtx, CustomMessageCtx, direction_request}
use deepflow_wasm_go_sdk.Agent.{HostFunctions}
use deepflow_wasm_go_sdk.Serde.ParseCtx.{deserialize_parse_ctx}
use deepflow_wasm_go_sdk.Serde.ParseCtx.Format.{IsValid, format}
use deepflow_wasm_go_sdk.Serde.CustomMessage.{deserialize_custom_message_ctx}
use deepflow_wasm_go_sdk.Pb.Messages.{ZmtpMessage}
use deepflow_wasm_go_sdk.Pb.Format.{zmtp_message_bytes, nonempty_bytes}
use deepflow_wasm_go_sdk.Abi.Export.{on_custom_message, parse_payload}
use deepflow_wasm_go_sdk.Abi.Outcome.{delivered}
use deepflow_wasm_go_sdk.Abi.Handlers.{Wrote}
use deepflow_wasm_go_sdk.Plugin.Zmtp.{Wrapper, json_info, zmtp_parser}
use deepflow_wasm_go_sdk.Plugin.Krpc.{KrpcInfo, parse, fill, fill_from_pb}
use deepflow_wasm_go_sdk.Plugin.Krpc.Handlers.{empty_krpc_info, info_of, request_of, krpc_parser}
use deepflow_wasm_go_sdk.Plugin.Calls.{on_custom_message_zmtp, parse_payload_krpc}
use deepflow_wasm_go_sdk.Plugin.Keeps.{krpc_parser-Keeps}
use deepflow_wasm_go_sdk.Agent.Keeps.{HostKeeps}
use deepflow_wasm_go_sdk.Host.{page_size}
use deepflow_wasm_go_sdk.Abi.Session.{
  call_parse_payload, call_get_hook_bitmap, step, run_calls, calls_bounded,
}
use deepflow_wasm_go_sdk.Abi.Export.{get_hook_bitmap}
use deepflow_wasm_go_sdk.Tests.Data.{base128, no_skip, dns_ctx, dns_bytes, agent}
use deepflow_wasm_go_sdk.Tests.Plugins.{krpc_pb, krpc_bytes}

abbrev message : ZmtpMessage
message = record { match_pattern = some []; payload = 9 ∷ []; unknown_fields = [] }

abbrev told : Bytes
told = 0 ∷ 0 ∷ 0 ∷ 0 ∷ 0 ∷ 106 ∷ 0 ∷ 0 ∷ 0 ∷ 5 ∷ 18 ∷ 1 ∷ 9 ∷ 10 ∷ 0 ∷ []

abbrev zmtp_ctx : CustomMessageCtx
zmtp_ctx = record {
  base_ctx = dns_ctx;
  hook_point = 0;
  type_code = 106;
  payload = 18 ∷ 1 ∷ 9 ∷ 10 ∷ 0 ∷ [];
}

message_bytes : 18 ∷ 1 ∷ 9 ∷ 10 ∷ 0 ∷ [] ≡ zmtp_message_bytes base128 message
unfolding zmtp_message_bytes nonempty_bytes
message_bytes = refl

message_short : length (zmtp_message_bytes base128 message) < 2 ^ 31
unfolding zmtp_message_bytes nonempty_bytes
message_short = omega arith

told_read : deserialize_custom_message_ctx dns_bytes told ≡ ok zmtp_ctx
unfolding deserialize_custom_message_ctx deserialize_parse_ctx slice index uint16 uint32 uint64
told_read = refl

told-Wrote :
    Wrote base128 (agent told) (agent told).vm_read_custom_message_info [] [] dns_bytes told
told-Wrote = record {
  between = [];
  param_read = refl;
  info_read = refl;
  param_some = omega arith;
  info_some = omega arith;
  param_fits = omega arith;
  info_fits = omega arith;
}

-- The JSON is a text for all messages.
abbrev wrapper : Wrapper
wrapper = record { json = λ bs. some (some (codes "{}")) }

on_custom_message_zmtp_example :
    on_custom_message base128 (agent told) (some (zmtp_parser wrapper no_skip)) []
    ≡ some (true, delivered base128 (agent told) (json_info (codes "{}") ∷ []) 0 [])
on_custom_message_zmtp_example =
    on_custom_message_zmtp base128 (agent told) wrapper no_skip zmtp_ctx message (codes "{}") [] []
      dns_bytes told (λ n h. refl) told-Wrote told_read refl refl message_bytes refl message_short
      refl

-- A context with room for the payload, and an agent that writes it.
abbrev wide_ctx : ParseCtx
wide_ctx = record dns_ctx { buf_size = 16 }

wide_ctx-IsValid : IsValid wide_ctx
wide_ctx-IsValid = record {
  addrs = inl (refl, refl);
  src_port = omega arith;
  dst_port = omega arith;
  l4 = refl;
  l7 = omega arith;
  ebpf_type = refl;
  time = omega arith;
  direction = refl;
  proc_name = omega arith;
  flow_id = omega arith;
  buf_size = omega arith;
  payload = refl;
}

abbrev wide_agent : HostFunctions (List Bytes)
wide_agent = record (agent krpc_bytes) {
  vm_read_ctx_base = λ h n. (h, format wide_ctx [], pos (length (format wide_ctx [])));
}

abbrev krpc_info : KrpcInfo
krpc_info = record empty_krpc_info { msg_id = pos 7; serv_id = pos 9; sequence = pos 4 }

krpc_parsed : parse krpc_pb empty_krpc_info (take 9 krpc_bytes) false ≡ ok (some krpc_info)
unfolding parse fill fill_from_pb uint16 slice
krpc_parsed = refl

parse_payload_krpc_example :
    parse_payload base128 wide_agent (some (krpc_parser wide_agent krpc_pb no_skip)) []
    ≡ some (
      true,
      delivered base128 wide_agent
          (info_of krpc_info (some (request_of krpc_info)) none ∷ [])
          direction_request
          [],
    )
parse_payload_krpc_example =
    parse_payload_krpc base128 wide_agent krpc_pb no_skip wide_ctx [] krpc_bytes 9 krpc_info [] []
      [] wide_ctx-IsValid refl refl (omega arith) refl (omega arith) refl (omega arith)
      (omega arith) krpc_parsed

-- Every buffer that the agent got fits a page.
abbrev Fits : List Bytes → Type 0
Fits h = All (λ b. length b ≤ page_size) h

wide_agent-HostKeeps : HostKeeps Fits wide_agent
wide_agent-HostKeeps = record {
  wasm_log = λ h m p. (omega arith, p);
  vm_read_ctx_base = λ h n le p. p;
  vm_read_payload = λ h n p. p;
  vm_read_http_req_info = λ h n le p. p;
  vm_read_http_resp_info = λ h n le p. p;
  vm_read_custom_message_info = λ h n le p. p;
  host_read_l7_protocol_info = λ h b ne le p. (le, p);
  host_read_str_result = λ h b two le p. (omega arith, p);
}

abbrev krpc_agent : List Bytes
krpc_agent =
    delivered base128 wide_agent (info_of krpc_info (some (request_of krpc_info)) none ∷ [])
      direction_request []

krpc_runs :
    run_calls base128 wide_agent
      (some (krpc_parser wide_agent krpc_pb no_skip))
      (call_parse_payload ∷ call_get_hook_bitmap ∷ [])
      []
    ≡ some (tt, krpc_agent)
unfolding run_calls step get_hook_bitmap
krpc_runs = rw parse_payload_krpc_example refl

calls_bounded_example : Fits krpc_agent
calls_bounded_example =
    calls_bounded base128 wide_agent wide_agent-HostKeeps
      (some (krpc_parser wide_agent krpc_pb no_skip))
      (call_parse_payload ∷ call_get_hook_bitmap ∷ []) [] krpc_agent
      (krpc_parser-Keeps wide_agent wide_agent-HostKeeps krpc_pb no_skip) tt krpc_runs
