-- ===== src/Abi/Keeps.antt =====
-- sdk/abi_export.go: a predicate on the agent's state that the agent and the plugin keep, the exported
-- functions keep.
use deepflow_wasm_go_sdk.Prelude.{
  ℕ, ◌+◌, ◌*◌, ◌^◌, ◌≤◌, ◌≡◌, inl, inr, Bool, false, Bool-cases, Option, Option-cases, none, some,
  List, [], ◌∷◌, arith, ltb, ◌==◌, if◌then◌else◌, length, take, replicate, length-take_le,
  length-replicate, not_ltb→le, le→not_ltb, bit_or, ◌%◌,
}
use deepflow_wasm_go_sdk.Prelude.Int.{ℤ}
use deepflow_wasm_go_sdk.Log.{Message, parse_payload_error}
use deepflow_wasm_go_sdk.Go.Result.{Result, ok, err, panic, OnOk, holds}
use deepflow_wasm_go_sdk.Go.Slices.{Bytes}
use deepflow_wasm_go_sdk.Go.Copy.{overwrite, length-overwrite}
use deepflow_wasm_go_sdk.Go.Binary.{put_uint16}
use deepflow_wasm_go_sdk.Host.{
  ParseCtx, HttpReqCtx, HttpRespCtx, CustomMessageCtx, L7ProtocolInfo, page_size,
}
use deepflow_wasm_go_sdk.Agent.{
  HostFunctions, Vm, pure, ◌>>=◌, ◌>>◌, call, log, front, read_into, is_zero,
}
use deepflow_wasm_go_sdk.Agent.Keeps.{
  Keeps, HostKeeps, Keeps-pure, Keeps-bind, Keeps-if, Keeps-log, Keeps-call, Keeps-read_into,
  Keeps-front,
}
use deepflow_wasm_go_sdk.Serde.Str.{write_str}
use deepflow_wasm_go_sdk.Serde.ParseCtx.{deserialize_parse_ctx}
use deepflow_wasm_go_sdk.Pb.Varint.{Varint}
use deepflow_wasm_go_sdk.Parser.Action.{Action}
use deepflow_wasm_go_sdk.Parser.Interface.{Parser, Check}
use deepflow_wasm_go_sdk.Abi.Export.{
  send_l7, send_str, log_if, deliver, single, with_info, with_ctx, answer_check, answer_payload,
  parse_param_buf_size,
}
use deepflow_wasm_go_sdk.Abi.Bounds.{serialize_l7_protocol_info-OnOk}

-- The plugin keeps `P`, whatever context it gets.
pub record PluginKeeps {H : Type 0} (P : H → Type 0) (p : Parser H) : Type 0 where
  pub on_http_req : (c : HttpReqCtx) → Keeps P (p.on_http_req c)
  pub on_http_resp : (c : HttpRespCtx) → Keeps P (p.on_http_resp c)
  pub on_custom_message : (c : CustomMessageCtx) → Keeps P (p.on_custom_message c)
  pub on_check_payload : (c : ParseCtx) → Keeps P (p.on_check_payload c)
  pub on_parse_payload : (c : ParseCtx) → Keeps P (p.on_parse_payload c)
  pub hook_in : Keeps P p.hook_in
  pub custom_message_hook_in : Keeps P p.custom_message_hook_in

-- The same of the global vmParser, which may be nil.
abbrev pub Kept : {H : Type 0} → (H → Type 0) → Option (Parser H) → Type 0
Kept P none = Unit {0}
Kept P (some p) = PluginKeeps P p

-- The buffer that checkPayload offers has the name, of 16 bytes at most, behind its length.
length-write_str :
    (s : Bytes) → length (write_str s (replicate (length s + 2) 0) 0).buf ≡ length s + 2
unfolding write_str
length-write_str s =
    let size = length-replicate {A = ℕ} (length s + 2) 0 in
    let buf : Bytes = replicate (length s + 2) 0 in
    let two = length-overwrite buf 0 (put_uint16 (length s % 2 ^ 16)) (omega arith) in
    let all =
      length-overwrite (overwrite buf 0 (put_uint16 (length s % 2 ^ 16))) 2 s (omega arith) in
    rw (le→not_ltb (0 + 2 + length s) (length buf) (omega arith)) (omega arith)

module _ {H : Type 0} {P : H → Type 0} (v : Varint) (host : HostFunctions H)
    (k : HostKeeps P host) where
  Keeps-send_l7 : (b : Bytes) → 1 ≤ length b → length b ≤ page_size → Keeps P (send_l7 v host b)
  unfolding send_l7
  Keeps-send_l7 b ne fits = record { at = λ h p. k.host_read_l7_protocol_info h b ne fits p }

  sent :
      (act : Action) (r : Result Bytes)
      → OnOk (λ b. length b ≤ page_size) r
      → Keeps P (
          call host r >>= λ payload. elim payload [
            | none ↦ pure act.is_abort
            | some [] ↦ pure act.is_abort
            | some (b ∷ bs) ↦ send_l7 v host (b ∷ bs) >> pure act.is_abort
          ])
  unfolding call
  sent act (ok []) b = record { at = λ h p. p }
  sent act (ok (b ∷ bs)) (holds fits) = record {
    at = λ h p.
        (Keeps-bind (send_l7 v host (b ∷ bs)) _ (Keeps-send_l7 (b ∷ bs) (omega arith) fits)
            λ u. Keeps-pure act.is_abort).at
          h p;
  }
  sent act (err none) b = record { at = λ h p. p }
  sent act (err (some m)) b = record { at = λ h p. k.wasm_log h m p }
  sent act panic b = record { at = λ h p. tt }

  pub deliver-Keeps :
      (act : Action) (infos : List (Option L7ProtocolInfo)) (direction : ℕ)
      → Keeps P (deliver v host act infos direction)
  unfolding deliver
  deliver-Keeps act infos direction = sent act _ (serialize_l7_protocol_info-OnOk v direction infos)

  pub single-Keeps :
      (act : Action) (failed multi : Message) (send : List (Option L7ProtocolInfo) → Vm H Bool)
      → ((infos : List (Option L7ProtocolInfo)) → Keeps P (send infos))
      → Keeps P (single v host act failed multi send)
  unfolding single
  single-Keeps act failed multi send q = elim (Option-cases act.e) [
    | inl e ↦ rw e (
        Keeps-if (ltb 1 (length act.payload_result)) _ _
          (Keeps-bind (log host multi) _ (Keeps-log host k multi) λ u. Keeps-pure act.is_abort)
          (q act.payload_result))
    | inr (x, e) ↦
        rw e (Keeps-bind (log host failed) _ (Keeps-log host k failed) λ u. Keeps-pure act.is_abort)
  ]

  pub decoded :
      {A C : Type 0} (failed : A) (m : C → Vm H A)
      → ((c : C) → Keeps P (m c))
      → (o : Option C) → Keeps P (elim o [ none ↦ pure failed | some c ↦ m c ])
  decoded failed m km none = Keeps-pure failed
  decoded failed m km (some c) = km c

  pub with_info-Keeps :
      {C : Type 0} (read_info : H → ℕ → H × Bytes × ℤ) (deserialize : Bytes → Bytes → Result C)
      (m : C → Vm H Bool)
      → ((h : H) → P h → P (read_info h page_size).0)
      → ((c : C) → Keeps P (m c))
      → Keeps P (with_info v host read_info deserialize m)
  unfolding with_info
  with_info-Keeps read_info deserialize m kr km =
      Keeps-bind (read_into host host.vm_read_ctx_base parse_param_buf_size) _
        (Keeps-read_into host k host.vm_read_ctx_base parse_param_buf_size
          λ h p. k.vm_read_ctx_base h parse_param_buf_size (omega arith) p)
        λ (buf, n). Keeps-if (is_zero n) _ _ (Keeps-pure false) (
          Keeps-bind (read_into host read_info page_size) _
            (Keeps-read_into host k read_info page_size kr)
            λ (info_buf, size). Keeps-if (is_zero size) _ _ (Keeps-pure false) (
              Keeps-bind (front buf n) _ (Keeps-front buf n) λ param.
                Keeps-bind (front info_buf size) _ (Keeps-front info_buf size) λ info.
                  Keeps-bind (call host (deserialize param info)) _
                    (Keeps-call host k (deserialize param info)) (decoded false m km)))

  pub with_ctx-Keeps :
      {A : Type 0} (failed : A) (m : ParseCtx → Vm H A)
      → ((c : ParseCtx) → Keeps P (m c))
      → Keeps P (with_ctx v host failed m)
  unfolding with_ctx
  with_ctx-Keeps failed m km =
      Keeps-bind (read_into host host.vm_read_ctx_base parse_param_buf_size) _
        (Keeps-read_into host k host.vm_read_ctx_base parse_param_buf_size
          λ h p. k.vm_read_ctx_base h parse_param_buf_size (omega arith) p)
        λ (buf, n). Keeps-if (is_zero n) _ _ (Keeps-pure failed) (
          Keeps-bind (front buf n) _ (Keeps-front buf n) λ param.
            Keeps-bind (call host (deserialize_parse_ctx param)) _
              (Keeps-call host k (deserialize_parse_ctx param)) (decoded failed m km))

  log_if-Keeps : (m : Option Message) → Keeps P (log_if v host m)
  unfolding log_if
  log_if-Keeps none = Keeps-pure tt
  log_if-Keeps (some m) = Keeps-log host k m

  send_str-Keeps : (b : Bytes) → 2 ≤ length b → length b ≤ 18 → Keeps P (send_str v host b)
  unfolding send_str
  send_str-Keeps b two fits = record { at = λ h p. k.host_read_str_result h b two fits p }

  name_fits : (s : Bytes) → length (if ltb 16 (length s) then take 16 s else s) ≤ 16
  name_fits s = elim (Bool-cases (ltb 16 (length s))) [
    | inl e ↦ rw e (length-take_le 16 s)
    | inr e ↦ rw e (not_ltb→le (length s) 16 e)
  ]

  pub answer_check-Keeps : (c : Check) → Keeps P (answer_check v host c)
  unfolding answer_check
  answer_check-Keeps c =
      let s = if ltb 16 (length c.proto_str) then take 16 c.proto_str else c.proto_str in
      let w = write_str s (replicate (length s + 2) 0) 0 in
      Keeps-bind (log_if v host w.logged) _ (log_if-Keeps w.logged) λ u.
        Keeps-if (c.proto_num == 0) _ _ (Keeps-pure 0) (
          Keeps-bind (send_str v host w.buf) _
            (send_str-Keeps w.buf (omega (arith, length-write_str s))
              (omega (arith, length-write_str s, name_fits c.proto_str)))
            λ taken. Keeps-pure (if taken then bit_or (c.direction * 2 ^ 8) c.proto_num else 0))

  results :
      (act : Action) (direction : ℕ) (infos : List (Option L7ProtocolInfo))
      → Keeps P (elim infos [
        | [] ↦ pure act.is_abort
        | i ∷ infos ↦ deliver v host act (i ∷ infos) direction
      ])
  results act direction [] = Keeps-pure act.is_abort
  results act direction (i ∷ infos) = deliver-Keeps act (i ∷ infos) direction

  pub answer_payload-Keeps :
      (act : Action) (direction : ℕ) → Keeps P (answer_payload v host act direction)
  unfolding answer_payload deliver
  answer_payload-Keeps act direction = elim (Option-cases act.e) [
    | inl e ↦ rw e (results act direction act.payload_result)
    | inr (x, e) ↦ rw e (
        Keeps-bind (log host parse_payload_error) _ (Keeps-log host k parse_payload_error)
          λ u. Keeps-pure act.is_abort)
  ]
