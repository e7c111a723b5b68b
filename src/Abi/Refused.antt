-- ===== src/Abi/Refused.antt =====
-- sdk/abi_export.go: the early returns, where the context cannot be read or the action cannot be sent.
use deepflow_wasm_go_sdk.Prelude.{
  ◌≤◌, ◌<◌, ◌≡◌, ◌≢◌, ◌⊎◌, inl, inr, refl, Bool, false, Option-cases, Option, none, some, List,
  arith, lt→ltb, length,
}
use deepflow_wasm_go_sdk.Prelude.Int.{pos}
use deepflow_wasm_go_sdk.Log.{Message, http_req_error, http_req_multi}
use deepflow_wasm_go_sdk.Go.Result.{ok, err}
use deepflow_wasm_go_sdk.Go.Slices.{Bytes}
use deepflow_wasm_go_sdk.Host.{L7ProtocolInfo, HttpReqCtx, direction_request}
use deepflow_wasm_go_sdk.Agent.{HostFunctions, Vm, log, call, is_zero}
use deepflow_wasm_go_sdk.Serde.ParseCtx.{deserialize_parse_ctx}
use deepflow_wasm_go_sdk.Serde.HttpReq.{deserialize_http_req_ctx}
use deepflow_wasm_go_sdk.Pb.Varint.{Varint}
use deepflow_wasm_go_sdk.Parser.Action.{Action}
use deepflow_wasm_go_sdk.Parser.Interface.{Parser}
use deepflow_wasm_go_sdk.Abi.Export.{
  with_ctx, single, deliver, on_http_req, parse_payload, check_payload, parse_param_buf_size,
}
use deepflow_wasm_go_sdk.Abi.Outcome.{read_fits, front_read}
use deepflow_wasm_go_sdk.Abi.Handlers.{Wrote, with_info-reads}

module _ {H : Type 0} (v : Varint) (host : HostFunctions H) where
  open host use {wasm_log, vm_read_ctx_base, vm_read_http_req_info}

  -- The agent behind a message, if there is one.
  unfoldable pub logged : Option Message → H → H
  logged none h = h
  logged (some m) h = wasm_log h m

  call_err :
      {A : Type 0} (m : Option Message) (h : H)
      → call host {A = A} (err m) h ≡ some (none, logged m h)
  unfolding call logged
  call_err none h = refl
  call_err (some m) h = refl

  with_ctx_refused :
      {A : Type 0} (failed : A) (k : _ → Vm H A) (xs : Bytes) (m : Option Message) (h h1 : H)
      → vm_read_ctx_base h parse_param_buf_size ≡ (h1, xs, pos (length xs))
      → length xs ≢ 0
      → length xs ≤ parse_param_buf_size
      → deserialize_parse_ctx xs ≡ err m
      → with_ctx v host failed k h ≡ some (failed, logged m h1)
  unfolding with_ctx
  with_ctx_refused failed k xs m h h1 r nz fits e =
      let test : is_zero (pos (length xs)) ≡ false = ground arith in
      rw (
        read_fits v host vm_read_ctx_base parse_param_buf_size h h1 xs r,
        test,
        front_read v host parse_param_buf_size xs h1 fits,
        e,
        call_err m h1,
      )

  -- Where the agent wrote bytes, at least one and no more than fit the buffer, that
  -- deserializeParseCtx refuses, parse_payload returns false and check_payload returns 0; the
  -- plugin is not called, and the agent gets nothing but the log.
  pub parse_and_check_refused :
      (p : Parser H) (xs : Bytes) (m : Option Message) (h h1 : H)
      → vm_read_ctx_base h parse_param_buf_size ≡ (h1, xs, pos (length xs))
      → length xs ≢ 0
      → length xs ≤ parse_param_buf_size
      → deserialize_parse_ctx xs ≡ err m
      → (parse_payload v host (some p) h ≡ some (false, logged m h1))
        × (check_payload v host (some p) h ≡ some (0, logged m h1))
  unfolding parse_payload check_payload
  parse_and_check_refused p xs m h h1 r nz fits e =
      (with_ctx_refused false _ xs m h h1 r nz fits e, with_ctx_refused 0 _ xs m h h1 r nz fits e)

  single_refused :
      (act : Action) (failed multi : Message) (send : List (Option L7ProtocolInfo) → Vm H Bool)
      (h : H)
      → (act.e ≢ none) ⊎ (1 < length act.payload_result)
      → (m : Message) × ((m ≡ failed) ⊎ (m ≡ multi))
        × (single v host act failed multi send h ≡ some (act.is_abort, wasm_log h m))
  unfolding single log
  single_refused act failed multi send h bad = elim (Option-cases act.e) [
    | inr (x, f) ↦ (failed, inl refl, rw f refl)
    | inl n ↦ elim bad [
      | inl k ↦ absurd (k n)
      | inr k ↦ (multi, inr refl, rw (n, lt→ltb 1 (length act.payload_result) k) refl)
    ]
  ]

  -- on_http_req, where the agent wrote a request that deserializeHttpReqCtx reads, and the plugin
  -- gives an action with an error or with more than one result: it logs one of the two messages,
  -- sends nothing, and returns whether the action aborts.
  pub on_http_req_refused :
      (p : Parser H) (c c' : HttpReqCtx) (act : Action) (h h2 h3 : H) (param info : Bytes)
      → Wrote v host vm_read_http_req_info h h2 param info
      → deserialize_http_req_ctx param info ≡ ok c
      → p.on_http_req c h2 ≡ some ((c', some act), h3)
      → (act.e ≢ none) ⊎ (1 < length act.payload_result)
      → (m : Message) × ((m ≡ http_req_error) ⊎ (m ≡ http_req_multi))
        × (on_http_req v host (some p) h ≡ some (act.is_abort, wasm_log h3 m))
  unfolding on_http_req
  on_http_req_refused p c c' act h h2 h3 param info w e q bad =
      let (m, which, s) =
        single_refused act http_req_error http_req_multi
          (λ infos. deliver v host act infos direction_request) h3 bad in
      (
        m,
        which,
        rw
            (
              with_info-reads v host vm_read_http_req_info deserialize_http_req_ctx _ h h2 param
                  info c w e,
              q,
            )
            s,
      )
