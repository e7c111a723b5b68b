-- ===== src/Plugin/Calls.antt =====
-- Whole calls of the agent on plugins: from what it writes to what it gets.
use deepflow_wasm_go_sdk.Prelude.{
  ℕ, ◌≡◌, ◌≢◌, ◌≤◌, ◌<◌, ◌^◌, refl, true, false, none, some, [], ◌∷◌, length, take, arith, ap, ◌∙◌,
}
use deepflow_wasm_go_sdk.Prelude.Int.{pos}
use deepflow_wasm_go_sdk.Go.Result.{ok}
use deepflow_wasm_go_sdk.Go.Slices.{Bytes}
use deepflow_wasm_go_sdk.Host.{ParseCtx, CustomMessageCtx, protocol_parse, direction_request}
use deepflow_wasm_go_sdk.Agent.{HostFunctions}
use deepflow_wasm_go_sdk.Agent.Payload.{get_payload_reads}
use deepflow_wasm_go_sdk.Serde.ParseCtx.Format.{IsValid, format}
use deepflow_wasm_go_sdk.Serde.CustomMessage.{deserialize_custom_message_ctx}
use deepflow_wasm_go_sdk.Pb.Varint.{Varint}
use deepflow_wasm_go_sdk.Pb.Messages.{ZmtpMessage}
use deepflow_wasm_go_sdk.Pb.Format.{zmtp_message_bytes}
use deepflow_wasm_go_sdk.Pb.Unmarshal.{Skip}
use deepflow_wasm_go_sdk.Pb.Unmarshal.Field.{IsBase128}
use deepflow_wasm_go_sdk.Parser.Action.{parse_action_abort_with_l7_info}
use deepflow_wasm_go_sdk.Parser.Hooks.{protocol_zmtp}
use deepflow_wasm_go_sdk.Abi.Export.{on_custom_message, parse_payload, parse_param_buf_size}
use deepflow_wasm_go_sdk.Abi.Outcome.{delivered, parse_payload_lem}
use deepflow_wasm_go_sdk.Abi.Handlers.{Wrote, on_custom_message_lem}
use deepflow_wasm_go_sdk.Plugin.{one_info}
use deepflow_wasm_go_sdk.Plugin.Zmtp.{Wrapper, json_info, zmtp_parser, on_custom_message_json}
use deepflow_wasm_go_sdk.Plugin.Krpc.{KrpcPb, KrpcInfo, parse, krpc_protocol}
use deepflow_wasm_go_sdk.Plugin.Krpc.Checked.{on_parse_payload_request}
use deepflow_wasm_go_sdk.Plugin.Krpc.Handlers.{empty_krpc_info, info_of, request_of, krpc_parser}

module _ {H : Type 0} (v : Varint) (host : HostFunctions H) where
  open host use {vm_read_ctx_base, vm_read_payload, vm_read_custom_message_info}

  -- on_custom_message with the ZMTP plugin, where the agent wrote a message that
  -- deserializeCustomMessageCtx reads, of the hook and the type of ZMTP, whose payload is a
  -- ZmtpMessage without unknown fields as MarshalVT encodes it, shorter than 2^31 bytes, that wraps a
  -- message of which there is a JSON text: it returns true, and the agent gets a result with the text.
  pub on_custom_message_zmtp :
      (wrapper : Wrapper) (s : Skip) (c : CustomMessageCtx) (m : ZmtpMessage) (json : Bytes)
      (h h2 : H) (param info : Bytes)
      → IsBase128 v
      → Wrote v host vm_read_custom_message_info h h2 param info
      → deserialize_custom_message_ctx param info ≡ ok c
      → c.hook_point ≡ protocol_parse
      → c.type_code ≡ protocol_zmtp
      → c.payload ≡ zmtp_message_bytes v m
      → m.unknown_fields ≡ []
      → length (zmtp_message_bytes v m) < 2 ^ 31
      → wrapper.json m.payload ≡ some (some json)
      → on_custom_message v host (some (zmtp_parser wrapper s)) h
        ≡ some (true, delivered v host (json_info json ∷ []) c.base_ctx.direction h2)
  unfolding parse_action_abort_with_l7_info
  on_custom_message_zmtp wrapper s c m json h h2 param info base w e hook code p unknown short j =
      on_custom_message_lem v host (zmtp_parser wrapper s) c c (one_info (json_info json))
        (json_info json ∷ []) h h2 h2 param info w e
        (on_custom_message_json wrapper s v c m json h2 base hook code p unknown short j) refl refl
        (omega arith)

  -- parse_payload with the kRPC plugin, where the agent wrote the format of a valid context of a request
  -- of kRPC, which fits the buffer, and, for the payload, at most 2^16 - 1 bytes and as many as the
  -- context says at most, at least those that it returned, of which parse gets an info: it returns
  -- true, and the agent gets the result of this request.
  pub parse_payload_krpc :
      (pb : KrpcPb) (s : Skip) (ctx : ParseCtx) (rest written : Bytes) (n : ℕ) (k : KrpcInfo)
      (h h1 h2 : H)
      → IsValid ctx
      → ctx.l7 ≡ krpc_protocol
      → ctx.direction ≡ direction_request
      → ctx.buf_size ≢ 0
      → vm_read_ctx_base h parse_param_buf_size
        ≡ (h1, format ctx rest, pos (length (format ctx rest)))
      → length (format ctx rest) ≤ parse_param_buf_size
      → vm_read_payload h1 ctx.buf_size ≡ (h2, written, pos n)
      → n ≤ length written
      → n ≤ ctx.buf_size
      → parse pb empty_krpc_info (take n written) false ≡ ok (some k)
      → parse_payload v host (some (krpc_parser host pb s)) h
        ≡ some (
          true,
          delivered v host (info_of k (some (request_of k)) none ∷ []) direction_request h2,
        )
  unfolding parse_action_abort_with_l7_info
  parse_payload_krpc pb s ctx rest written n k h h1 h2 valid l7 d nz r fits rp long enough e =
      let payload : Bytes = take n written in
      let ctx' = record ctx { payload = some payload } in
      let got =
        get_payload_reads host ctx h1 h2 written n valid.payload nz valid.buf_size rp long enough in
      parse_payload_lem v host (krpc_parser host pb s) ctx ctx' rest
        (one_info (info_of k (some (request_of k)) none))
        (info_of k (some (request_of k)) none ∷ []) h h1 h2 valid r fits
        (on_parse_payload_request host pb ctx ctx' k payload h1 h2 got l7 d e) refl refl
      ∙ ap (λ t. some (true, delivered v host (info_of k (some (request_of k)) none ∷ []) t h2)) d
