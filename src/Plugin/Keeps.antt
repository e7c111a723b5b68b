-- ===== src/Plugin/Keeps.antt =====
-- example/: plugins without a state of their own keep what the agent keeps.
use deepflow_wasm_go_sdk.Prelude.{ℕ, true, false, Option, none, some, ltb, replicate, if◌then◌else◌}
use deepflow_wasm_go_sdk.Prelude.Int.{is_neg}
use deepflow_wasm_go_sdk.Log.{payload_over_page}
use deepflow_wasm_go_sdk.Go.Slices.{Bytes, index}
use deepflow_wasm_go_sdk.Host.{ParseCtx, CustomMessageCtx, page_size, check_parse_protocol}
use deepflow_wasm_go_sdk.Agent.{HostFunctions, Vm, pure, or_panic, or_trap, front, log, read_into}
use deepflow_wasm_go_sdk.Agent.Keeps.{
  Keeps, HostKeeps, Keeps-pure, Keeps-trap, Keeps-bind, Keeps-if, Keeps-log, Keeps-read_into,
  Keeps-front, Keeps-or_trap, Keeps-or_panic,
}
use deepflow_wasm_go_sdk.Agent.Payload.{read_payload, get_payload}
use deepflow_wasm_go_sdk.Pb.Unmarshal.{Skip, unmarshal_nats_message}
use deepflow_wasm_go_sdk.Pb.Unmarshal.RoundTrip.{empty_nats_message}
use deepflow_wasm_go_sdk.Parser.Hooks.{protocol_nats}
use deepflow_wasm_go_sdk.Parser.Action.{action_next}
use deepflow_wasm_go_sdk.Parser.Default.{default_on_custom_message, no_check}
use deepflow_wasm_go_sdk.Abi.Keeps.{PluginKeeps}
use deepflow_wasm_go_sdk.Plugin.{with_payload, payload_or}
use deepflow_wasm_go_sdk.Plugin.Krpc.{KrpcPb, KrpcInfo, parse}
use deepflow_wasm_go_sdk.Plugin.Krpc.Handlers.{
  empty_krpc_info, answer_info, action_of, check_payload, on_check_payload, on_parse_payload,
  krpc_parser,
}

module _ {H : Type 0} {P : H → Type 0} (host : HostFunctions H) (k : HostKeeps P host) where
  read_payload-Keeps : (ctx : ParseCtx) → Keeps P (read_payload host ctx)
  unfolding read_payload
  read_payload-Keeps ctx =
      Keeps-bind
        (if ltb page_size ctx.buf_size then log host (payload_over_page ctx.buf_size) else pure tt)
        _
        (Keeps-if (ltb page_size ctx.buf_size) _ _
          (Keeps-log host k (payload_over_page ctx.buf_size)) (Keeps-pure tt))
        λ u.
          Keeps-bind (or_panic (index (replicate ctx.buf_size 0) 0)) _
            (Keeps-or_panic (index (replicate ctx.buf_size 0) 0))
            λ first.
              (Keeps-bind (read_into host host.vm_read_payload ctx.buf_size) _
                (Keeps-read_into host k host.vm_read_payload ctx.buf_size
                  λ h p. k.vm_read_payload h ctx.buf_size p)
                λ (payload, size). Keeps-if (is_neg size) _ _ (Keeps-pure (ctx, none)) (
                  Keeps-bind (front payload size) _ (Keeps-front payload size)
                    λ kept. Keeps-pure (record ctx { payload = some kept }, some kept)))

  pub get_payload-Keeps : (ctx : ParseCtx) → Keeps P (get_payload host ctx)
  unfolding get_payload
  get_payload-Keeps ctx =
      elim ctx.payload
        as (λ o. Keeps P (elim o [ some p ↦ pure (ctx, some p) | none ↦ read_payload host ctx ])) [
          | some p ↦ Keeps-pure (ctx, some p)
          | none ↦ read_payload-Keeps ctx
        ]

  given :
      {A : Type 0} (f : Bytes → Vm H A) (failed : A) (o : Option Bytes)
      → ((b : Bytes) → Keeps P (f b))
      → Keeps P (with_payload host f failed o)
  given f failed none q = Keeps-pure failed
  given f failed (some b) q = q b

  pub payload_or-Keeps :
      {A : Type 0} (ctx : ParseCtx) (failed : A) (f : Bytes → Vm H A)
      → ((b : Bytes) → Keeps P (f b))
      → Keeps P (payload_or host ctx failed f)
  unfolding payload_or
  payload_or-Keeps ctx failed f q =
      Keeps-bind (get_payload host ctx) _ (get_payload-Keeps ctx)
        λ (ctx', payload). Keeps-bind _ _ (given f failed payload q) λ a. Keeps-pure (ctx', a)

module _ {H : Type 0} {P : H → Type 0} (s : Skip) where
  -- A plugin with no OnNatsMessage of its own.
  pub default_on_custom_message-Keeps :
      (ctx : CustomMessageCtx) → Keeps P (default_on_custom_message {H = H} s none ctx)
  unfolding default_on_custom_message
  default_on_custom_message-Keeps ctx =
      Keeps-if (check_parse_protocol ctx protocol_nats true) _ _
        (Keeps-bind (or_trap (unmarshal_nats_message s ctx.payload empty_nats_message)) _
          (Keeps-or_trap _) λ r. Keeps-bind _ _ Keeps-trap λ act. Keeps-pure (ctx, act))
        (Keeps-pure (ctx, some action_next))

module _ {H : Type 0} {P : H → Type 0} (host : HostFunctions H) (k : HostKeeps P host)
    (pb : KrpcPb) where
  krpc_check-Keeps : (l4 : ℕ) (o : Option Bytes) → Keeps P (check_payload host pb l4 o)
  krpc_check-Keeps l4 none = Keeps-pure no_check
  krpc_check-Keeps l4 (some payload) = Keeps-if _ _ _ (Keeps-pure no_check) (
      Keeps-bind (or_panic (parse pb empty_krpc_info payload true)) _ (Keeps-or_panic _)
        λ info. Keeps-pure _)

  krpc_action-Keeps :
      (direction : ℕ) (o : Option KrpcInfo) → Keeps P (action_of host pb direction o)
  krpc_action-Keeps direction none = Keeps-pure _
  krpc_action-Keeps direction (some i) =
      Keeps-bind (or_trap (answer_info direction i)) _ (Keeps-or_trap (answer_info direction i))
        λ info. Keeps-pure _

  pub krpc_parser-Keeps : (s : Skip) → PluginKeeps P (krpc_parser host pb s)
  unfolding on_check_payload on_parse_payload
  krpc_parser-Keeps s = record {
    on_http_req = λ c. Keeps-pure _;
    on_http_resp = λ c. Keeps-pure _;
    on_custom_message = default_on_custom_message-Keeps s;
    on_check_payload = λ c.
        Keeps-bind (get_payload host c) _ (get_payload-Keeps host k c) λ (c', payload).
          Keeps-bind _ _ (krpc_check-Keeps c'.l4 payload) λ check. Keeps-pure (c', check);
    on_parse_payload = λ c. Keeps-if _ _ _ (Keeps-pure _) (
        payload_or-Keeps host k c _ _ λ payload.
          Keeps-bind (or_panic (parse pb empty_krpc_info payload false)) _ (Keeps-or_panic _)
            λ info. krpc_action-Keeps c.direction info);
    hook_in = Keeps-pure _;
    custom_message_hook_in = Keeps-pure _;
  }
