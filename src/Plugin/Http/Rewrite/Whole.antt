-- ===== src/Plugin/Http/Rewrite/Whole.antt =====
-- Whole calls of on_http_resp with the plugin.
use deepflow_wasm_go_sdk.Prelude.{
  ℕ, ◌≡◌, ◌≢◌, ◌≤◌, ◌<◌, ◌^◌, refl, ap, ◌∙◌, true, false, Option, some, none, [], ◌∷◌, length, take,
}
use deepflow_wasm_go_sdk.Prelude.Int.{pos}
use deepflow_wasm_go_sdk.Prelude.Text.{codes, bytes_eq}
use deepflow_wasm_go_sdk.Go.Result.{ok}
use deepflow_wasm_go_sdk.Go.Slices.{Bytes}
use deepflow_wasm_go_sdk.Host.{HttpRespCtx, L7ProtocolInfo, direction_response}
use deepflow_wasm_go_sdk.Agent.{HostFunctions}
use deepflow_wasm_go_sdk.Agent.Payload.{get_payload_reads}
use deepflow_wasm_go_sdk.Serde.HttpResp.{deserialize_http_resp_ctx}
use deepflow_wasm_go_sdk.Pb.Varint.{Varint}
use deepflow_wasm_go_sdk.Pb.Unmarshal.{Skip}
use deepflow_wasm_go_sdk.Parser.Action.{parse_action_abort_with_l7_info}
use deepflow_wasm_go_sdk.Abi.Export.{on_http_resp}
use deepflow_wasm_go_sdk.Abi.Outcome.{delivered}
use deepflow_wasm_go_sdk.Abi.Handlers.{Wrote, on_http_resp_lem}
use deepflow_wasm_go_sdk.Plugin.{value, one_info, payload_or}
use deepflow_wasm_go_sdk.Plugin.Http.{HttpResponse, Libraries}
use deepflow_wasm_go_sdk.Plugin.Http.Rewrite
use deepflow_wasm_go_sdk.Plugin.Http.Rewrite.{on_body, on_resp, rewrite_parser}
use deepflow_wasm_go_sdk.Plugin.Http.Rewrite.Found.{Found}
use deepflow_wasm_go_sdk.Plugin.Http.Rewrite.Status.{
  Answered, Answered-with_status, on_body-Answered,
}

module _ {H : Type 0} (v : Varint) (host : HostFunctions H) (libraries : Libraries) where
  open host use {vm_read_payload, vm_read_http_resp_info}
  open libraries use {read_response}

  -- The handler, where the payload is read and is a response that is not compressed.
  handled :
      (c : HttpRespCtx) (r : HttpResponse) (written : Bytes) (n : ℕ) (h h' : H)
      → c.base_ctx.payload ≡ none
      → c.base_ctx.buf_size ≢ 0
      → c.base_ctx.buf_size < 2 ^ 16
      → vm_read_payload h c.base_ctx.buf_size ≡ (h', written, pos n)
      → n ≤ length written
      → n ≤ c.base_ctx.buf_size
      → read_response (take n written) ≡ value r
      → bytes_eq (r.header (codes "Content-Encoding")) (codes "gzip") ≡ false
      → Rewrite.on_http_resp libraries host c h
        ≡ some (
          (
            record c { base_ctx = record c.base_ctx { payload = some (take n written) } },
            some (one_info (on_body libraries r.status_code r.body)),
          ),
          h',
        )
  unfolding Rewrite.on_http_resp payload_or on_resp
  handled c r written n h h' unread nz small rp long fits e plain =
      rw (get_payload_reads host c.base_ctx h h' written n unread nz small rp long fits, e, plain)

  -- on_http_resp with the plugin that rewrites a status, where the agent wrote a response that
  -- deserializeHttpRespCtx reads, with no payload read and a BufSize that is neither 0 nor 2^16 or more,
  -- and, for the payload, at most BufSize bytes, at least those that it returned, which
  -- http.ReadResponse reads as a response whose Content-Encoding is not gzip: it returns true, and the
  -- agent gets, as that of a response, the result that answers the OPT_STATUS of the body, with the
  -- status that the plugin gave it.
  pub on_http_resp_rewrite :
      (s : Skip) (c : HttpRespCtx) (r : HttpResponse) (written : Bytes) (n : ℕ) (h h2 h3 : H)
      (param info : Bytes)
      → Wrote v host vm_read_http_resp_info h h2 param info
      → deserialize_http_resp_ctx param info ≡ ok c
      → c.base_ctx.payload ≡ none
      → c.base_ctx.buf_size ≢ 0
      → c.base_ctx.buf_size < 2 ^ 16
      → vm_read_payload h2 c.base_ctx.buf_size ≡ (h3, written, pos n)
      → n ≤ length written
      → n ≤ c.base_ctx.buf_size
      → read_response (take n written) ≡ value r
      → bytes_eq (r.header (codes "Content-Encoding")) (codes "gzip") ≡ false
      → (op_status : Option Bytes) × (answer : L7ProtocolInfo) × Found libraries r.body op_status
        × Answered r.status_code r.body op_status answer
        × (on_http_resp v host (some (rewrite_parser libraries host s)) h
            ≡ some (true, delivered v host (answer ∷ []) direction_response h3))
  unfolding parse_action_abort_with_l7_info
  on_http_resp_rewrite s c r written n h h2 h3 param info w e unread nz small rp long fits er
        plain =
      let answer : L7ProtocolInfo = on_body libraries r.status_code r.body in
      let c' : HttpRespCtx = record c {
        base_ctx = record c.base_ctx { payload = some (take n written) };
      } in
      let (op_status, found, unique, answered) = on_body-Answered libraries r.status_code r.body in
      let (resp, has, keeps) = Answered-with_status c.status answered in
      (
        op_status,
        answer,
        found,
        answered,
        on_http_resp_lem v host (rewrite_parser libraries host s) c c' (one_info answer) answer resp
              h h2 h3 param info w e
              (handled c r written n h2 h3 unread nz small rp long fits er plain) refl refl has
            ∙ ap
                (λ (i : L7ProtocolInfo).
                  some (true, delivered v host (i ∷ []) direction_response h3))
                keeps,
      )
