-- ===== src/Abi/Session.antt =====
-- sdk/abi_export.go: the exported functions in the order in which the agent calls them.
use deepflow_wasm_go_sdk.Prelude.{subst, ◌≡◌, false, Option, none, some, List, [], ◌∷◌, arith}
use deepflow_wasm_go_sdk.Log.{
  http_req_error, http_resp_error, custom_message_error, http_req_multi, http_resp_multi,
  custom_message_multi,
}
use deepflow_wasm_go_sdk.Host.{direction_request, direction_response, page_size}
use deepflow_wasm_go_sdk.Agent.{HostFunctions, Vm, pure, ◌>>◌, or_trap}
use deepflow_wasm_go_sdk.Agent.Keeps.{
  Behind, Keeps, HostKeeps, Keeps-pure, Keeps-bind, Keeps-or_trap,
}
use deepflow_wasm_go_sdk.Serde.HttpReq.{deserialize_http_req_ctx}
use deepflow_wasm_go_sdk.Serde.HttpResp.{deserialize_http_resp_ctx}
use deepflow_wasm_go_sdk.Serde.CustomMessage.{deserialize_custom_message_ctx}
use deepflow_wasm_go_sdk.Pb.Varint.{Varint}
use deepflow_wasm_go_sdk.Parser.Interface.{Parser}
use deepflow_wasm_go_sdk.Abi.Export.{
  on_http_req, on_http_resp, on_custom_message, check_payload, parse_payload, get_hook_bitmap,
  get_custom_message_hook, keep_status,
}
use deepflow_wasm_go_sdk.Abi.Keeps.{
  Kept, decoded, with_info-Keeps, with_ctx-Keeps, single-Keeps, deliver-Keeps, answer_check-Keeps,
  answer_payload-Keeps,
}

module _ {H : Type 0} {P : H → Type 0} (v : Varint) (host : HostFunctions H)
    (k : HostKeeps P host) where
  on_http_req-Keeps : (o : Option (Parser H)) → Kept P o → Keeps P (on_http_req v host o)
  unfolding on_http_req
  on_http_req-Keeps none q = Keeps-pure false
  on_http_req-Keeps (some p) q =
      with_info-Keeps v host k host.vm_read_http_req_info deserialize_http_req_ctx _
        (λ h p. k.vm_read_http_req_info h page_size (omega arith) p)
        λ c. Keeps-bind (p.on_http_req c) _ (q.on_http_req c) λ (c', act).
          decoded v host k false _
            (λ a.
              single-Keeps v host k a http_req_error http_req_multi _
                λ infos. deliver-Keeps v host k a infos direction_request)
            act

  on_http_resp-Keeps : (o : Option (Parser H)) → Kept P o → Keeps P (on_http_resp v host o)
  unfolding on_http_resp
  on_http_resp-Keeps none q = Keeps-pure false
  on_http_resp-Keeps (some p) q =
      with_info-Keeps v host k host.vm_read_http_resp_info deserialize_http_resp_ctx _
        (λ h p. k.vm_read_http_resp_info h page_size (omega arith) p)
        λ c. Keeps-bind (p.on_http_resp c) _ (q.on_http_resp c) λ (c', act).
          decoded v host k false _
            (λ a. single-Keeps v host k a http_resp_error http_resp_multi _ λ infos.
              Keeps-bind (or_trap (keep_status c'.status infos)) _
                (Keeps-or_trap (keep_status c'.status infos))
                λ is. deliver-Keeps v host k a is direction_response)
            act

  on_custom_message-Keeps :
      (o : Option (Parser H)) → Kept P o → Keeps P (on_custom_message v host o)
  unfolding on_custom_message
  on_custom_message-Keeps none q = Keeps-pure false
  on_custom_message-Keeps (some p) q =
      with_info-Keeps v host k host.vm_read_custom_message_info deserialize_custom_message_ctx _
        (λ h p. k.vm_read_custom_message_info h page_size (omega arith) p)
        λ c. Keeps-bind (p.on_custom_message c) _ (q.on_custom_message c) λ (c', act).
          decoded v host k false _
            (λ a.
              single-Keeps v host k a custom_message_error custom_message_multi _
                λ infos. deliver-Keeps v host k a infos c'.base_ctx.direction)
            act

  check_payload-Keeps : (o : Option (Parser H)) → Kept P o → Keeps P (check_payload v host o)
  unfolding check_payload
  check_payload-Keeps none q = Keeps-pure 0
  check_payload-Keeps (some p) q = with_ctx-Keeps v host k 0 _ λ ctx.
      Keeps-bind (p.on_check_payload ctx) _ (q.on_check_payload ctx)
        λ (ctx', c). answer_check-Keeps v host k c

  parse_payload-Keeps : (o : Option (Parser H)) → Kept P o → Keeps P (parse_payload v host o)
  unfolding parse_payload
  parse_payload-Keeps none q = Keeps-pure false
  parse_payload-Keeps (some p) q = with_ctx-Keeps v host k false _ λ ctx.
      Keeps-bind (p.on_parse_payload ctx) _ (q.on_parse_payload ctx) λ (ctx', act).
        decoded v host k false _ (λ a. answer_payload-Keeps v host k a ctx'.direction) act

module _ {H : Type 0} {P : H → Type 0} where
  get_hook_bitmap-Keeps : (o : Option (Parser H)) → Kept P o → Keeps P (get_hook_bitmap o)
  unfolding get_hook_bitmap
  get_hook_bitmap-Keeps none q = Keeps-pure none
  get_hook_bitmap-Keeps (some p) q = Keeps-bind p.hook_in _ q.hook_in λ b. Keeps-pure _

  get_custom_message_hook-Keeps :
      (o : Option (Parser H)) → Kept P o → Keeps P (get_custom_message_hook o)
  unfolding get_custom_message_hook
  get_custom_message_hook-Keeps none q = Keeps-pure none
  get_custom_message_hook-Keeps (some p) q =
      Keeps-bind p.custom_message_hook_in _ q.custom_message_hook_in λ hook. Keeps-pure _

-- A call of an exported function.
pub data Call : Type 0 where
  call_on_http_req : Call
  call_on_http_resp : Call
  call_on_custom_message : Call
  call_check_payload : Call
  call_parse_payload : Call
  call_get_hook_bitmap : Call
  call_get_custom_message_hook : Call

module _ {H : Type 0} (v : Varint) (host : HostFunctions H) (o : Option (Parser H)) where
  -- One call; what it returns is left aside.
  unfoldable pub step : Call → Vm H (Unit {0})
  step call_on_http_req = on_http_req v host o >> pure tt
  step call_on_http_resp = on_http_resp v host o >> pure tt
  step call_on_custom_message = on_custom_message v host o >> pure tt
  step call_check_payload = check_payload v host o >> pure tt
  step call_parse_payload = parse_payload v host o >> pure tt
  step call_get_hook_bitmap = get_hook_bitmap o >> pure tt
  step call_get_custom_message_hook = get_custom_message_hook o >> pure tt

  unfoldable pub run_calls : List Call → Vm H (Unit {0})
  run_calls [] = pure tt
  run_calls (c ∷ cs) = step c >> run_calls cs

module _ {H : Type 0} {P : H → Type 0} (v : Varint) (host : HostFunctions H)
    (k : HostKeeps P host) where
  quiet : {A : Type 0} (m : Vm H A) → Keeps P m → Keeps P (m >> pure tt)
  quiet m q = Keeps-bind m _ q λ a. Keeps-pure tt

  step-Keeps : (o : Option (Parser H)) → Kept P o → (c : Call) → Keeps P (step v host o c)
  unfolding step
  step-Keeps o q call_on_http_req = quiet _ (on_http_req-Keeps v host k o q)
  step-Keeps o q call_on_http_resp = quiet _ (on_http_resp-Keeps v host k o q)
  step-Keeps o q call_on_custom_message = quiet _ (on_custom_message-Keeps v host k o q)
  step-Keeps o q call_check_payload = quiet _ (check_payload-Keeps v host k o q)
  step-Keeps o q call_parse_payload = quiet _ (parse_payload-Keeps v host k o q)
  step-Keeps o q call_get_hook_bitmap = quiet _ (get_hook_bitmap-Keeps o q)
  step-Keeps o q call_get_custom_message_hook = quiet _ (get_custom_message_hook-Keeps o q)

  run_calls-Keeps :
      (o : Option (Parser H)) → Kept P o → (cs : List Call) → Keeps P (run_calls v host o cs)
  unfolding run_calls
  run_calls-Keeps o q [] = Keeps-pure tt
  run_calls-Keeps o q (c ∷ cs) =
      Keeps-bind (step v host o c) _ (step-Keeps o q c) λ u. run_calls-Keeps o q cs

  -- Whatever calls of the exported functions the agent makes one after the other, and whatever
  -- bytes and sizes it gives them, where none panics: a predicate on its state that holds at the
  -- start holds at the end, if the plugin keeps it and the agent's functions do where a buffer to
  -- read into has at most 65536 bytes, except that of a payload, a buffer with results has 1 to
  -- 65536 bytes, and one with a name has 2 to 18.
  pub calls_bounded :
      (o : Option (Parser H)) (cs : List Call) (h h' : H)
      → Kept P o
      → P h
      → run_calls v host o cs h ≡ some (tt, h')
      → P h'
  calls_bounded o cs h h' q p e = subst (Behind P) e ((run_calls-Keeps o q cs).at h p)
