-- ===== src/Abi/Status.antt =====
-- sdk/parser.go, HttpRespActionAbortWithResult, with onHttpResp of sdk/abi_export.go.
use deepflow_wasm_go_sdk.Prelude.{◌≡◌, refl, true, Option, some, List, [], ◌∷◌}
use deepflow_wasm_go_sdk.Go.Result.{ok}
use deepflow_wasm_go_sdk.Go.Slices.{Bytes}
use deepflow_wasm_go_sdk.Host.{
  HttpRespCtx, Response, Trace, KeyVal, L7ProtocolInfo, direction_response,
}
use deepflow_wasm_go_sdk.Agent.{HostFunctions}
use deepflow_wasm_go_sdk.Serde.HttpResp.{deserialize_http_resp_ctx}
use deepflow_wasm_go_sdk.Pb.Varint.{Varint}
use deepflow_wasm_go_sdk.Parser.Action.{
  or_empty, empty_response, empty_info, http_resp_action_abort_with_result,
}
use deepflow_wasm_go_sdk.Parser.Interface.{Parser}
use deepflow_wasm_go_sdk.Abi.Export.{on_http_resp}
use deepflow_wasm_go_sdk.Abi.Outcome.{delivered}
use deepflow_wasm_go_sdk.Abi.Handlers.{Wrote, with_status, on_http_resp_lem}

module _ {H : Type 0} (v : Varint) (host : HostFunctions H) where
  open host use {vm_read_http_resp_info}

  -- on_http_resp, where the agent wrote a response that deserializeHttpRespCtx reads, and the plugin
  -- answers with HttpRespActionAbortWithResult, with a response or nil: it does not panic, it returns
  -- true, and the agent gets the response, the trace and the attributes; the status is that of the
  -- response if it has one, and else that of the context as the plugin left it.
  pub on_http_resp-abort_with_result :
      (p : Parser H) (c c' : HttpRespCtx) (resp : Option Response) (trace : Option Trace)
      (kv : List KeyVal) (h h2 h3 : H) (param info : Bytes)
      → Wrote v host vm_read_http_resp_info h h2 param info
      → deserialize_http_resp_ctx param info ≡ ok c
      → p.on_http_resp c h2
        ≡ some ((c', some (http_resp_action_abort_with_result resp trace kv)), h3)
      → on_http_resp v host (some p) h
        ≡ some (
          true,
          delivered v host
              (record empty_info {
                resp = some (with_status c'.status (or_empty resp empty_response));
                trace = trace;
                kv = kv;
              }
                ∷ [])
              direction_response
              h3,
        )
  unfolding http_resp_action_abort_with_result
  on_http_resp-abort_with_result p c c' resp trace kv h h2 h3 param info w e q =
      let r : Response = or_empty resp empty_response in
      let i : L7ProtocolInfo = record empty_info { resp = some r; trace = trace; kv = kv } in
      on_http_resp_lem v host p c c' (http_resp_action_abort_with_result resp trace kv) i r h h2 h3
        param info w e q refl refl refl
