-- ===== src/Plugin/Http/Hook.antt =====
-- example/http/http.go: attributes and a trace of requests and responses at port 8080.
use deepflow_wasm_go_sdk.Prelude.{
  Bool, not, ◌&&◌, ◌||◌, Option, none, some, List, [], ◌∷◌, ◌==◌, if◌then◌else◌,
}
use deepflow_wasm_go_sdk.Prelude.Int.{ℤ, pos}
use deepflow_wasm_go_sdk.Prelude.Text.{codes, has_prefix}
use deepflow_wasm_go_sdk.Go.Slices.{Bytes}
use deepflow_wasm_go_sdk.Go.Strings.{split_byte, trim_space, format_int}
use deepflow_wasm_go_sdk.Host.{HttpReqCtx, HttpRespCtx, KeyVal, Trace}
use deepflow_wasm_go_sdk.Agent.{HostFunctions, Vm, pure, ◌>>=◌}
use deepflow_wasm_go_sdk.Pb.Unmarshal.{Skip}
use deepflow_wasm_go_sdk.Parser.Action.{
  foreign, Action, action_next, action_abort, action_abort_with_err,
  http_req_action_abort_with_result, http_resp_action_abort_with_result,
}
use deepflow_wasm_go_sdk.Parser.Hooks.{hook_point_http_req, hook_point_http_resp}
use deepflow_wasm_go_sdk.Parser.Default.{no_check, default_parser}
use deepflow_wasm_go_sdk.Parser.Interface.{Parser}
use deepflow_wasm_go_sdk.Plugin.{payload_or_abort, or_abort}
use deepflow_wasm_go_sdk.Plugin.Http.{HttpRequest, Libraries}

-- t := strings.Split(s, ":"), and the trimmed t[1] if there are two parts.
abbrev second_of : List Bytes → Bytes
second_of (a ∷ b ∷ []) = trim_space b
second_of parts = []

abbrev ids_of_parts : List Bytes → Bytes × Bytes
ids_of_parts (a ∷ b ∷ []) = (second_of (split_byte 58 a), second_of (split_byte 58 b))
ids_of_parts parts = ([], [])

-- The trace and the span of the header Custom-Trace-Info; an empty text where it has none.
abbrev ids_of : Option (List Bytes) → Bytes × Bytes
ids_of (some (info ∷ rest)) = ids_of_parts (split_byte 44 info)
ids_of (some []) = ([], [])
ids_of none = ([], [])

abbrev trace_of_ids : Bytes × Bytes → Option Trace
trace_of_ids ([], span_id) = none
trace_of_ids (b ∷ bs, []) = none
trace_of_ids (b ∷ bs, c ∷ cs) = some (record {
  trace_id = b ∷ bs;
  span_id = c ∷ cs;
  parent_span_id = [];
  x_request_id = [];
  http_proxy_client = [];
  trace_ids = [];
})

unfoldable pub trace_of : Option (List Bytes) → Option Trace
trace_of info = trace_of_ids (ids_of info)

abbrev attribute : Bytes → Bytes → KeyVal
attribute key val = record { key = key; val = val }

module _ {H : Type 0} (host : HostFunctions H) (libraries : Libraries) where
  open libraries use {read_request, read_response, exists, get_int, time_text}

  abbrev req_action : HttpRequest → Action
  req_action req =
      http_req_action_abort_with_result none (trace_of (req.header (codes "Custom-Trace-Info"))) (
        attribute (codes "username") (req.query (codes "username"))
        ∷ attribute (codes "type") (req.query (codes "type"))
        ∷ [])

  unfoldable pub on_http_req : HttpReqCtx → Vm H (HttpReqCtx × Option Action)
  on_http_req ctx =
      if not (ctx.base_ctx.dst_port == 8080) || not (has_prefix ctx.path (codes "/user_info?"))
      then pure (ctx, some action_next)
      else (do
        (base_ctx, action) ←
            payload_or_abort host ctx.base_ctx
              (λ payload. or_abort (λ req. pure (some (req_action req))) (read_request payload))
        pure (record ctx { base_ctx = base_ctx }, action))

  abbrev user_action : Bytes → Action
  user_action body = http_resp_action_abort_with_result none none (
      attribute (codes "user_id") (format_int (get_int body (codes "data" ∷ codes "user_id" ∷ [])))
      ∷ attribute (codes "register_time")
          (time_text (get_int body (codes "data" ∷ codes "register_time" ∷ [])))
      ∷ [])

  abbrev is_zero : ℤ → Bool
  is_zero (pos n) = n == 0
  is_zero (ℤ.negsuc n) = Bool.false

  abbrev body_action : Bytes → Option Bytes → Action
  body_action body (some e) = action_abort_with_err (some (foreign e))
  body_action body none =
      if exists body (codes "code")
        && exists body (codes "data")
        && is_zero (get_int body (codes "code" ∷ []))
      then user_action body
      else action_abort

  unfoldable pub on_http_resp : HttpRespCtx → Vm H (HttpRespCtx × Option Action)
  on_http_resp ctx =
      if not (ctx.base_ctx.src_port == 8080) then pure (ctx, some action_next) else (do
        (base_ctx, action) ← payload_or_abort host ctx.base_ctx (λ payload.
            or_abort (λ resp. pure (some (body_action resp.body resp.body_error)))
              (read_response payload))
        pure (record ctx { base_ctx = base_ctx }, action))

  abbrev pub http_hook : Skip → Parser H
  http_hook s = record (default_parser s none) {
    on_http_req = on_http_req;
    on_http_resp = on_http_resp;
    on_check_payload = λ ctx. pure (ctx, no_check);
    on_parse_payload = λ ctx. pure (ctx, some action_next);
    hook_in = pure (hook_point_http_req ∷ hook_point_http_resp ∷ []);
  }
