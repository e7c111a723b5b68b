-- ===== src/Abi/Export.antt =====
-- sdk/abi_export.go: the functions that the agent calls. Each starts with the global vmParser, which
-- is nil until SetParser has been called.
use deepflow_wasm_go_sdk.Prelude.{
  ℕ, ◌+◌, ◌*◌, ◌^◌, Bool, false, Option, none, some, List, [], ◌∷◌, ◌++◌, bit_or, ltb, ◌==◌,
  if◌then◌else◌, length, take, replicate,
}
use deepflow_wasm_go_sdk.Prelude.Int.{ℤ}
use deepflow_wasm_go_sdk.Log.{
  Message, http_req_error, http_resp_error, custom_message_error, parse_payload_error,
  http_req_multi, http_resp_multi, custom_message_multi,
}
use deepflow_wasm_go_sdk.Go.Result.{Result}
use deepflow_wasm_go_sdk.Go.Slices.{Bytes}
use deepflow_wasm_go_sdk.Go.Binary.{put_uint64}
use deepflow_wasm_go_sdk.Host.{
  ParseCtx, L7ProtocolInfo, direction_request, direction_response, page_size,
}
use deepflow_wasm_go_sdk.Agent.{
  HostFunctions, Vm, pure, ◌>>=◌, ◌>>◌, or_trap, front, log, call, read_into, is_zero,
}
use deepflow_wasm_go_sdk.Serde.Str.{write_str}
use deepflow_wasm_go_sdk.Serde.ParseCtx.{deserialize_parse_ctx}
use deepflow_wasm_go_sdk.Serde.HttpReq.{deserialize_http_req_ctx}
use deepflow_wasm_go_sdk.Serde.HttpResp.{deserialize_http_resp_ctx}
use deepflow_wasm_go_sdk.Serde.CustomMessage.{deserialize_custom_message_ctx}
use deepflow_wasm_go_sdk.Serde.L7Info.{serialize_l7_protocol_info}
use deepflow_wasm_go_sdk.Pb.Varint.{Varint}
use deepflow_wasm_go_sdk.Parser.Action.{Action}
use deepflow_wasm_go_sdk.Parser.Hooks.{HookBitmap}
use deepflow_wasm_go_sdk.Parser.Interface.{Parser, Check}

abbrev pub parse_param_buf_size : ℕ
parse_param_buf_size = 1024

-- if len(info) > 0 && info[0].Resp.Status == nil { info[0].Resp.Status = &ctx.Status }. A nil entry,
-- and an entry with no response, is dereferenced: a
-- panic, which is `none`.
unfoldable pub keep_status :
    ℕ → List (Option L7ProtocolInfo) → Option (List (Option L7ProtocolInfo))
keep_status status [] = some []
keep_status status (none ∷ infos) = none
keep_status status (some i ∷ infos) = elim i.resp [
  | none ↦ none
  | some r ↦ elim r.status [
    | some s ↦ some (some i ∷ infos)
    | none ↦ some (some (record i { resp = some (record r { status = some status }) }) ∷ infos)
  ]
]

module _ {H : Type 0} (v : Varint) (host : HostFunctions H) where
  open host use {
    vm_read_ctx_base, vm_read_http_req_info, vm_read_http_resp_info, vm_read_custom_message_info,
    host_read_l7_protocol_info, host_read_str_result,
  }

  -- hostReadL7ProtocolInfo(&data[0], len(data))
  unfoldable pub send_l7 : Bytes → Vm H Bool
  send_l7 payload h = let (h', taken) = host_read_l7_protocol_info h payload in some (taken, h')

  -- The end of each handler: data := serializeL7ProtocolInfo(info, direction); it is sent unless it
  -- is empty or nil; return act.abort().
  unfoldable pub deliver : Action → List (Option L7ProtocolInfo) → ℕ → Vm H Bool
  deliver act infos direction = do
    payload ← call host (serialize_l7_protocol_info v infos direction)
    elim payload [
      | none ↦ pure act.is_abort
      | some [] ↦ pure act.is_abort
      | some (b ∷ bs) ↦ send_l7 (b ∷ bs) >> pure act.is_abort
    ]

  -- What the handlers of requests, responses and messages do with a non-nil action, up to the end:
  -- an error, and more than one result, are logged, and nothing is sent.
  unfoldable pub single :
      Action → Message → Message → (List (Option L7ProtocolInfo) → Vm H Bool) → Vm H Bool
  single act failed multi send = elim act.e [
    | some err ↦ log host failed >> pure act.is_abort
    | none ↦
        if ltb 1 (length act.payload_result)
        then log host multi >> pure act.is_abort
        else send act.payload_result
  ]

  -- The start of the handlers of requests, responses and messages: the two buffers are read and
  -- deserialized, and nothing more happens where that fails.
  unfoldable pub with_info :
      {C : Type 0}
      → (H → ℕ → H × Bytes × ℤ)
      → (Bytes → Bytes → Result C)
      → (C → Vm H Bool)
      → Vm H Bool
  with_info read_info deserialize k = do
    (param_buf, ctx_size) ← read_into host vm_read_ctx_base parse_param_buf_size
    (if is_zero ctx_size then pure false else (do
      (info_buf, info_size) ← read_into host read_info page_size
      (if is_zero info_size then pure false else (do
        param ← front param_buf ctx_size
        info ← front info_buf info_size
        ctx ← call host (deserialize param info)
        elim ctx [ none ↦ pure false | some c ↦ k c ]))))

  unfoldable pub on_http_req : Option (Parser H) → Vm H Bool
  on_http_req none = pure false
  on_http_req (some p) = with_info vm_read_http_req_info deserialize_http_req_ctx λ c. do
    (c', act) ← p.on_http_req c
    elim act [
      | none ↦ pure false
      | some a ↦ single a http_req_error http_req_multi λ infos. deliver a infos direction_request
    ]

  -- The status of the context is the one that the plugin left there.
  unfoldable pub on_http_resp : Option (Parser H) → Vm H Bool
  on_http_resp none = pure false
  on_http_resp (some p) = with_info vm_read_http_resp_info deserialize_http_resp_ctx λ c. do
    (c', act) ← p.on_http_resp c
    elim act [
      | none ↦ pure false
      | some a ↦ single a http_resp_error http_resp_multi λ infos. do
        infos' ← or_trap (keep_status c'.status infos)
        deliver a infos' direction_response
    ]

  -- The direction is that of the context as the plugin left it.
  unfoldable pub on_custom_message : Option (Parser H) → Vm H Bool
  on_custom_message none = pure false
  on_custom_message (some p) =
      with_info vm_read_custom_message_info deserialize_custom_message_ctx λ c. do
        (c', act) ← p.on_custom_message c
        elim act [
          | none ↦ pure false
          | some a ↦
              single a custom_message_error custom_message_multi
                λ infos. deliver a infos c'.base_ctx.direction
        ]

  -- The start of checkPayload and parsePayload; `failed` is what they return early.
  unfoldable pub with_ctx : {A : Type 0} → A → (ParseCtx → Vm H A) → Vm H A
  with_ctx failed k = do
    (param_buf, ctx_size) ← read_into host vm_read_ctx_base parse_param_buf_size
    (if is_zero ctx_size then pure failed else (do
      param ← front param_buf ctx_size
      ctx ← call host (deserialize_parse_ctx param)
      elim ctx [ none ↦ pure failed | some c ↦ k c ]))

  unfoldable pub log_if : Option Message → Vm H (Unit {0})
  log_if none = pure tt
  log_if (some m) = log host m

  -- hostReadStrResult(&buf[0], len(buf))
  unfoldable pub send_str : Bytes → Vm H Bool
  send_str buf h = let (h', taken) = host_read_str_result h buf in some ((taken), h')

  -- The protocol name is cut to 16 bytes, and offered to the agent only if the number is not 0.
  unfoldable pub answer_check : Check → Vm H ℕ
  answer_check c = do
    let proto_str = if ltb 16 (length c.proto_str) then take 16 c.proto_str else c.proto_str
    let w = write_str proto_str (replicate (length proto_str + 2) 0) 0
    log_if w.logged
    (if c.proto_num == 0 then pure 0 else (do
      taken ← send_str w.buf
      pure (if taken then bit_or (c.direction * 2 ^ 8) c.proto_num else 0)))

  unfoldable pub check_payload : Option (Parser H) → Vm H ℕ
  check_payload none = pure 0
  check_payload (some p) = with_ctx 0 λ ctx. do (ctx', c) ← p.on_check_payload ctx; answer_check c

  -- What parsePayload does with a non-nil action.
  unfoldable pub answer_payload : Action → ℕ → Vm H Bool
  answer_payload act direction = elim act.e [
    | some err ↦ log host parse_payload_error >> pure act.is_abort
    | none ↦ elim act.payload_result [
      | [] ↦ pure act.is_abort
      | i ∷ infos ↦ deliver act (i ∷ infos) direction
    ]
  ]

  unfoldable pub parse_payload : Option (Parser H) → Vm H Bool
  parse_payload none = pure false
  parse_payload (some p) = with_ctx false λ ctx. do
    (ctx', act) ← p.on_parse_payload ctx
    elim act [ none ↦ pure false | some a ↦ answer_payload a ctx'.direction ]

-- hookBit |= v, over the bitmaps of HookIn
unfoldable pub union_from : HookBitmap → List HookBitmap → HookBitmap
union_from u [] = u
union_from u (b ∷ bs) = union_from (record { hi = bit_or u.hi b.hi; lo = bit_or u.lo b.lo }) bs

module _ {H : Type 0} where
  -- The 16 bytes that the returned pointer shows; none is the nil pointer.
  unfoldable pub get_hook_bitmap : Option (Parser H) → Vm H (Option Bytes)
  get_hook_bitmap none = pure none
  get_hook_bitmap (some p) = do
    b ← p.hook_in
    let hook_bit = union_from (record { hi = 0; lo = 0 }) b
    pure (some (put_uint64 hook_bit.hi ++ put_uint64 hook_bit.lo))

  unfoldable pub get_custom_message_hook : Option (Parser H) → Vm H (Option Bytes)
  get_custom_message_hook none = pure none
  get_custom_message_hook (some p) = do
    hook ← p.custom_message_hook_in
    pure (some (put_uint64 hook))
