-- ===== src/Abi/Handlers.antt =====
-- sdk/abi_export.go: onHttpReq, onHttpResp and onCustomMessage, end to end.
use deepflow_wasm_go_sdk.Prelude.{
  ℕ, ◌≤◌, ◌≡◌, ◌≢◌, refl, ap, ◌∙◌, Bool, false, Option-cases, inl, inr, Option, none, some, List,
  [], ◌∷◌, map, arith, length,
}
use deepflow_wasm_go_sdk.Prelude.Int.{ℤ, pos}
use deepflow_wasm_go_sdk.Log.{Message}
use deepflow_wasm_go_sdk.Go.Result.{Result, ok}
use deepflow_wasm_go_sdk.Go.Slices.{Bytes}
use deepflow_wasm_go_sdk.Host.{
  L7ProtocolInfo, Response, HttpReqCtx, HttpRespCtx, CustomMessageCtx, page_size, direction_request,
  direction_response,
}
use deepflow_wasm_go_sdk.Agent.{HostFunctions, Vm, call, is_zero}
use deepflow_wasm_go_sdk.Serde.HttpReq.{deserialize_http_req_ctx}
use deepflow_wasm_go_sdk.Serde.HttpResp.{deserialize_http_resp_ctx}
use deepflow_wasm_go_sdk.Serde.CustomMessage.{deserialize_custom_message_ctx}
use deepflow_wasm_go_sdk.Pb.Varint.{Varint}
use deepflow_wasm_go_sdk.Parser.Action.{Action}
use deepflow_wasm_go_sdk.Parser.Interface.{Parser}
use deepflow_wasm_go_sdk.Abi.Export.{
  with_info, single, keep_status, on_http_req, on_http_resp, on_custom_message,
  parse_param_buf_size,
}
use deepflow_wasm_go_sdk.Abi.Outcome.{delivered, deliver_lem, read_fits, front_read}

-- A response with a status: its own, or that of the context.
abbrev pub with_status : ℕ → Response → Response
with_status status r = record r { status = some (elim r.status [ some s ↦ s | none ↦ status ]) }

module _ {H : Type 0} (v : Varint) (host : HostFunctions H) where
  open host use {
    vm_read_ctx_base, vm_read_http_req_info, vm_read_http_resp_info, vm_read_custom_message_info,
  }

  -- The agent wrote `param` and then `info`, which are not empty and fit the buffers.
  pub record Wrote (read_info : H → ℕ → H × Bytes × ℤ) (h h2 : H) (param info : Bytes)
      : Type 0 where
    pub between : H
    pub param_read : vm_read_ctx_base h parse_param_buf_size ≡ (between, param, pos (length param))
    pub info_read : read_info between page_size ≡ (h2, info, pos (length info))
    pub param_some : length param ≢ 0
    pub info_some : length info ≢ 0
    pub param_fits : length param ≤ parse_param_buf_size
    pub info_fits : length info ≤ page_size

  pub with_info-reads :
      {C : Type 0} (read_info : H → ℕ → H × Bytes × ℤ) (deserialize : Bytes → Bytes → Result C)
      (k : C → Vm H Bool) (h h2 : H) (param info : Bytes) (c : C)
      → Wrote read_info h h2 param info
      → deserialize param info ≡ ok c
      → with_info v host read_info deserialize k h ≡ k c h2
  unfolding with_info call
  with_info-reads read_info deserialize k h h2 param info c w e =
      let p0 = w.param_some in
      let i0 = w.info_some in
      let param_test : is_zero (pos (length param)) ≡ false = ground arith in
      let info_test : is_zero (pos (length info)) ≡ false = ground arith in
      rw (
        read_fits v host vm_read_ctx_base parse_param_buf_size h w.between param w.param_read,
        param_test,
        read_fits v host read_info page_size w.between h2 info w.info_read,
        info_test,
        front_read v host parse_param_buf_size param h2 w.param_fits,
        front_read v host page_size info h2 w.info_fits,
        e,
      )

  single_one :
      (act : Action) (failed multi : Message) (send : List (Option L7ProtocolInfo) → Vm H Bool)
      (infos : List L7ProtocolInfo) (h : H)
      → act.e ≡ none
      → act.payload_result ≡ map some infos
      → length infos ≤ 1
      → single v host act failed multi send h ≡ send (map some infos) h
  unfolding single
  single_one act failed multi send [] h ne r l = rw (ne, r)
  single_one act failed multi send (i ∷ []) h ne r l = rw (ne, r)
  single_one act failed multi send (i ∷ j ∷ infos) h ne r l = absurd (omega arith)

  -- on_http_req: where the agent wrote a request that deserializeHttpReqCtx reads, and the plugin
  -- gives an action without an error and with at most one result, the handler returns whether the
  -- action aborts and the agent gets the result, as that of a request.
  pub on_http_req_lem :
      (p : Parser H) (c c' : HttpReqCtx) (act : Action) (infos : List L7ProtocolInfo) (h h2 h3 : H)
      (param info : Bytes)
      → Wrote vm_read_http_req_info h h2 param info
      → deserialize_http_req_ctx param info ≡ ok c
      → p.on_http_req c h2 ≡ some ((c', some act), h3)
      → act.e ≡ none
      → act.payload_result ≡ map some infos
      → length infos ≤ 1
      → on_http_req v host (some p) h
        ≡ some (act.is_abort, delivered v host infos direction_request h3)
  unfolding on_http_req
  on_http_req_lem p c c' act infos h h2 h3 param info w e q ne r l =
      rw (with_info-reads vm_read_http_req_info deserialize_http_req_ctx _ h h2 param info c w e, q)
        (single_one act _ _ _ infos h3 ne r l ∙ deliver_lem v host act infos direction_request h3)

  -- on_custom_message: where the agent wrote a message that deserializeCustomMessageCtx reads, and the
  -- plugin gives an action without an error and with at most one result, the handler returns whether
  -- the action aborts and the agent gets the result, in the direction of the context as the plugin
  -- left it.
  pub on_custom_message_lem :
      (p : Parser H) (c c' : CustomMessageCtx) (act : Action) (infos : List L7ProtocolInfo)
      (h h2 h3 : H) (param info : Bytes)
      → Wrote vm_read_custom_message_info h h2 param info
      → deserialize_custom_message_ctx param info ≡ ok c
      → p.on_custom_message c h2 ≡ some ((c', some act), h3)
      → act.e ≡ none
      → act.payload_result ≡ map some infos
      → length infos ≤ 1
      → on_custom_message v host (some p) h
        ≡ some (act.is_abort, delivered v host infos c'.base_ctx.direction h3)
  unfolding on_custom_message
  on_custom_message_lem p c c' act infos h h2 h3 param info w e q ne r l =
      rw
        (
          with_info-reads vm_read_custom_message_info deserialize_custom_message_ctx _ h h2 param
              info c w e,
          q,
        )
        (single_one act _ _ _ infos h3 ne r l
          ∙ deliver_lem v host act infos c'.base_ctx.direction h3)

  keep_status_lem :
      (status : ℕ) (i : L7ProtocolInfo) (r : Response)
      → i.resp ≡ some r
      → keep_status status (some i ∷ [])
        ≡ some (some (record i { resp = some (with_status status r) }) ∷ [])
  unfolding keep_status
  keep_status_lem status i r e = rw e (elim (Option-cases r.status) [
    | inl n ↦ rw n refl
    | inr (s, f) ↦ rw f (
        ap (λ (x : Option Response). some (some (record i { resp = x }) ∷ []))
          (e ∙ ap (λ (x : Option ℕ). some (record r { status = x })) f))
  ])

  -- on_http_resp: where the agent wrote a response that deserializeHttpRespCtx reads, and the plugin
  -- gives an action without an error and with one result, which has a response, the handler returns
  -- whether the action aborts and the agent gets the result, as that of a response; its status is its
  -- own if it has one, and else that of the context as the plugin left it.
  pub on_http_resp_lem :
      (p : Parser H) (c c' : HttpRespCtx) (act : Action) (i : L7ProtocolInfo) (r : Response)
      (h h2 h3 : H) (param info : Bytes)
      → Wrote vm_read_http_resp_info h h2 param info
      → deserialize_http_resp_ctx param info ≡ ok c
      → p.on_http_resp c h2 ≡ some ((c', some act), h3)
      → act.e ≡ none
      → act.payload_result ≡ some i ∷ []
      → i.resp ≡ some r
      → on_http_resp v host (some p) h
        ≡ some (
          act.is_abort,
          delivered v host
              (record i { resp = some (with_status c'.status r) } ∷ [])
              direction_response
              h3,
        )
  unfolding on_http_resp
  on_http_resp_lem p c c' act i r h h2 h3 param info w e q ne ps re =
      rw
        (
          with_info-reads vm_read_http_resp_info deserialize_http_resp_ctx _ h h2 param info c w e,
          q,
        )
        (single_one act _ _ _ (i ∷ []) h3 ne ps (omega arith)
          ∙ rw (keep_status_lem c'.status i r re) (
              deliver_lem v host act (record i { resp = some (with_status c'.status r) } ∷ [])
                direction_response h3))

  -- on_http_resp: where the agent wrote a response that deserializeHttpRespCtx reads, and the plugin
  -- gives an action without an error and with one result, which has no response, it panics.
  pub on_http_resp_panic :
      (p : Parser H) (c c' : HttpRespCtx) (act : Action) (i : L7ProtocolInfo) (h h2 h3 : H)
      (param info : Bytes)
      → Wrote vm_read_http_resp_info h h2 param info
      → deserialize_http_resp_ctx param info ≡ ok c
      → p.on_http_resp c h2 ≡ some ((c', some act), h3)
      → act.e ≡ none
      → act.payload_result ≡ some i ∷ []
      → i.resp ≡ none
      → on_http_resp v host (some p) h ≡ none
  unfolding on_http_resp keep_status
  on_http_resp_panic p c c' act i h h2 h3 param info w e q ne ps re =
      rw
        (
          with_info-reads vm_read_http_resp_info deserialize_http_resp_ctx _ h h2 param info c w e,
          q,
        )
        (single_one act _ _ _ (i ∷ []) h3 ne ps (omega arith) ∙ rw re refl)
