-- ===== src/Tests/Calls.antt =====
-- Whole calls of the agent, on an agent and a plugin of the tests.
use deepflow_wasm_go_sdk.Prelude.{
  ◌+◌, ◌*◌, ◌^◌, ◌≡◌, refl, true, some, none, [], ◌∷◌, ◌++◌, arith, ◌==◌, if◌then◌else◌, length,
  take, List, false, ◌↔◌, ◌⊎◌, inr,
}
use deepflow_wasm_go_sdk.Go.Binary.{put_uint64}
use deepflow_wasm_go_sdk.Host.{L7ProtocolInfo, direction_response}
use deepflow_wasm_go_sdk.Agent.Payload.{
  get_payload, Exceeds, get_payload_reads, get_payload_panics_iff,
}
use deepflow_wasm_go_sdk.Parser.Action.{
  Action, empty_info, empty_response, http_resp_action_abort_with_result,
}
use deepflow_wasm_go_sdk.Parser.Hooks.{HookBitmap, hook_point_payload_parse, hook_point_http_req}
use deepflow_wasm_go_sdk.Abi.Export.{
  on_http_req, on_http_resp, check_payload, parse_payload, get_hook_bitmap,
}
use deepflow_wasm_go_sdk.Abi.Outcome.{delivered, parse_payload_lem}
use deepflow_wasm_go_sdk.Abi.Safe.{Runs, action, parse_payload_safe}
use deepflow_wasm_go_sdk.Abi.Handlers.{Wrote, with_status, on_http_resp_lem, on_http_resp_panic}
use deepflow_wasm_go_sdk.Abi.Answers.{IsUnion, name_format, check_payload_lem, get_hook_bitmap_lem}
use deepflow_wasm_go_sdk.Agent.{HostFunctions}
use deepflow_wasm_go_sdk.Go.Slices.{Bytes}
use deepflow_wasm_go_sdk.Prelude.Int.{pos}
use deepflow_wasm_go_sdk.Log.{Message, unexpected_ip_type, http_req_error, http_req_multi}
use deepflow_wasm_go_sdk.Abi.Refused.{logged, parse_and_check_refused, on_http_req_refused}
use deepflow_wasm_go_sdk.Abi.Status.{on_http_resp-abort_with_result}
use deepflow_wasm_go_sdk.Tests.Data.{
  base128, dns_ctx, dns_ctx-IsValid, dns_bytes, req_ctx, req_bytes, resp_ctx, resp_bytes,
  message_bytes, info, response, act, agent, plugin, check,
}
use deepflow_wasm_go_sdk.Tests.Contexts.{five_refused, req_read, resp_read, dns_bytes-All}

parse_payload_lem_example :
    parse_payload base128 (agent []) (some (plugin act)) []
    ≡ some (true, delivered base128 (agent []) (info ∷ []) 0 [])
parse_payload_lem_example =
    parse_payload_lem base128 (agent []) (plugin act) dns_ctx dns_ctx [] act (info ∷ []) [] [] []
      dns_ctx-IsValid refl (omega arith) refl refl refl

parse_payload_safe_example : Runs (parse_payload base128 (agent []) (some (plugin act)) [])
parse_payload_safe_example =
    parse_payload_safe base128 (agent []) (plugin act) [] [] dns_bytes (length dns_bytes) refl
      (omega arith) dns_bytes-All (λ c valid. action (info ∷ [], refl))

check_payload_lem_example : check_payload base128 (agent []) (some (plugin act)) [] ≡ (
    if check.proto_num == 0
    then some (0, [])
    else (let (h3, taken) = (agent []).host_read_str_result [] (name_format check.proto_str) in
        some (if taken then check.direction * 2 ^ 8 + check.proto_num else 0, h3)))
check_payload_lem_example =
    check_payload_lem base128 (agent []) (plugin act) dns_ctx dns_ctx [] check [] [] []
      dns_ctx-IsValid refl (omega arith) refl (omega arith)

req-Wrote :
    Wrote base128
      (agent req_bytes)
      (agent req_bytes).vm_read_http_req_info
      []
      []
      dns_bytes
      req_bytes
req-Wrote = record {
  between = [];
  param_read = refl;
  info_read = refl;
  param_some = omega arith;
  info_some = omega arith;
  param_fits = omega arith;
  info_fits = omega arith;
}

resp-Wrote :
    Wrote base128
      (agent resp_bytes)
      (agent resp_bytes).vm_read_http_resp_info
      []
      []
      dns_bytes
      resp_bytes
resp-Wrote = record {
  between = [];
  param_read = refl;
  info_read = refl;
  param_some = omega arith;
  info_some = omega arith;
  param_fits = omega arith;
  info_fits = omega arith;
}

message-Wrote :
    Wrote base128
      (agent message_bytes)
      (agent message_bytes).vm_read_custom_message_info
      []
      []
      dns_bytes
      message_bytes
message-Wrote = record {
  between = [];
  param_read = refl;
  info_read = refl;
  param_some = omega arith;
  info_some = omega arith;
  param_fits = omega arith;
  info_fits = omega arith;
}

on_http_resp_lem_example :
    on_http_resp base128 (agent resp_bytes) (some (plugin act)) []
    ≡ some (
      true,
      delivered base128
          (agent resp_bytes)
          (record info { resp = some (with_status 4 response) } ∷ [])
          direction_response
          [],
    )
on_http_resp_lem_example =
    on_http_resp_lem base128 (agent resp_bytes) (plugin act) resp_ctx resp_ctx act info response []
      [] [] dns_bytes resp_bytes resp-Wrote resp_read refl refl refl refl

abbrev no_resp : L7ProtocolInfo
no_resp = record info { resp = none }

abbrev no_resp_act : Action
no_resp_act = record act { payload_result = some no_resp ∷ [] }

on_http_resp_panic_example :
    on_http_resp base128 (agent resp_bytes) (some (plugin no_resp_act)) [] ≡ none
on_http_resp_panic_example =
    on_http_resp_panic base128 (agent resp_bytes) (plugin no_resp_act) resp_ctx resp_ctx no_resp_act
      no_resp [] [] [] dns_bytes resp_bytes resp-Wrote resp_read refl refl refl refl

get_hook_bitmap_lem_example :
    (u : HookBitmap) × (get_hook_bitmap (some (plugin act)) []
      ≡ some (some (put_uint64 u.hi ++ put_uint64 u.lo), []))
    × IsUnion u (hook_point_payload_parse ∷ hook_point_http_req ∷ [])
get_hook_bitmap_lem_example =
    get_hook_bitmap_lem (plugin act) (hook_point_payload_parse ∷ hook_point_http_req ∷ []) [] []
      refl

get_payload_reads_example :
    get_payload (agent (5 ∷ 6 ∷ [])) dns_ctx []
    ≡ some
        ((record dns_ctx { payload = some (take 2 (5 ∷ 6 ∷ [])) }, some (take 2 (5 ∷ 6 ∷ []))), [])
get_payload_reads_example =
    get_payload_reads (agent (5 ∷ 6 ∷ [])) dns_ctx [] [] (5 ∷ 6 ∷ []) 2 refl (omega arith)
      (omega arith) refl (omega arith) (omega arith)

get_payload_panics_iff_example :
    (get_payload (agent (5 ∷ 6 ∷ 7 ∷ 8 ∷ [])) dns_ctx [] ≡ none)
    ↔ ((dns_ctx.payload ≡ none) × ((dns_ctx.buf_size ≡ 0) ⊎ Exceeds dns_ctx.buf_size (pos 4)))
get_payload_panics_iff_example =
    get_payload_panics_iff (agent (5 ∷ 6 ∷ 7 ∷ 8 ∷ [])) dns_ctx [] [] (5 ∷ 6 ∷ 7 ∷ 8 ∷ []) (pos 4)
      (omega arith) refl

-- An agent that writes no context but the ip type 5.
abbrev confused : HostFunctions (List Bytes)
confused = record (agent []) { vm_read_ctx_base = λ h n. (h, 5 ∷ [], pos 1) }

parse_and_check_refused_example :
    (parse_payload base128 confused (some (plugin act)) []
      ≡ some (false, logged base128 confused (some (unexpected_ip_type 5)) []))
    × (check_payload base128 confused (some (plugin act)) []
        ≡ some (0, logged base128 confused (some (unexpected_ip_type 5)) []))
parse_and_check_refused_example =
    parse_and_check_refused base128 confused (plugin act) (5 ∷ []) (some (unexpected_ip_type 5)) []
      [] refl (omega arith) (omega arith) five_refused

abbrev two_act : Action
two_act = record act { payload_result = some info ∷ some info ∷ [] }

on_http_req_refused_example :
    (m : Message) × ((m ≡ http_req_error) ⊎ (m ≡ http_req_multi))
    × (on_http_req base128 (agent req_bytes) (some (plugin two_act)) []
        ≡ some (true, (agent req_bytes).wasm_log [] m))
on_http_req_refused_example =
    on_http_req_refused base128 (agent req_bytes) (plugin two_act) req_ctx req_ctx two_act [] [] []
      dns_bytes req_bytes req-Wrote req_read refl (inr (omega arith))

abbrev rewritten : Action
rewritten = http_resp_action_abort_with_result none none []

on_http_resp-abort_with_result_example :
    on_http_resp base128 (agent resp_bytes) (some (plugin rewritten)) []
    ≡ some (
      true,
      delivered base128
          (agent resp_bytes)
          (record empty_info { resp = some (with_status 4 empty_response); trace = none; kv = [] }
            ∷ [])
          direction_response
          [],
    )
on_http_resp-abort_with_result_example =
    on_http_resp-abort_with_result base128 (agent resp_bytes) (plugin rewritten) resp_ctx resp_ctx
      none none [] [] [] [] dns_bytes resp_bytes resp-Wrote resp_read refl
