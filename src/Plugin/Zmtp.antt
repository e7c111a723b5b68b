-- ===== src/Plugin/Zmtp.antt =====
-- example/zmtp/zmtp.go. The package pb of the example is generated: the JSON of its MessageWrapper is a
-- parameter.
use deepflow_wasm_go_sdk.Prelude.{
  ◌≡◌, ◌<◌, ◌^◌, true, ◌&&◌, Option, none, some, [], ◌∷◌, ◌==◌, if◌then◌else◌, length, ap, arith,
  ◌∙◌,
}
use deepflow_wasm_go_sdk.Prelude.Text.{codes}
use deepflow_wasm_go_sdk.Go.Slices.{Bytes}
use deepflow_wasm_go_sdk.Host.{CustomMessageCtx, L7ProtocolInfo, protocol_parse}
use deepflow_wasm_go_sdk.Agent.{Vm, pure, ◌>>=◌, or_trap}
use deepflow_wasm_go_sdk.Pb.Messages.{ZmtpMessage}
use deepflow_wasm_go_sdk.Pb.Varint.{Varint}
use deepflow_wasm_go_sdk.Pb.Format.{zmtp_message_bytes}
use deepflow_wasm_go_sdk.Pb.Unmarshal.{PbError, Skip, unmarshal_zmtp_message}
use deepflow_wasm_go_sdk.Pb.Unmarshal.Field.{IsBase128}
use deepflow_wasm_go_sdk.Pb.Unmarshal.RoundTrip.{empty_zmtp_message, unmarshal-zmtp_message_bytes}
use deepflow_wasm_go_sdk.Parser.Action.{
  Action, action_next, empty_info, empty_request, empty_response,
}
use deepflow_wasm_go_sdk.Parser.Hooks.{
  hook_point_custom_message, protocol_zmtp, custom_message_hook_protocol,
}
use deepflow_wasm_go_sdk.Parser.Default.{default_parser}
use deepflow_wasm_go_sdk.Parser.Interface.{Parser}
use deepflow_wasm_go_sdk.Plugin.{one_info}

-- pb.MessageWrapper: none where UnmarshalVT fails; otherwise what json.Marshal gives, or an error.
pub record Wrapper : Type 0 where
  pub json : Bytes → Option (Option Bytes)

abbrev text_of : Option Bytes → Bytes
text_of none = []
text_of (some s) = s

abbrev pub json_info : Bytes → L7ProtocolInfo
json_info text = record empty_info {
  resp = some empty_response;
  req = some empty_request;
  kv = record { key = codes "json_payload"; val = text } ∷ [];
  l7_protocol_str = codes "Protobuf";
}

abbrev wrapped : Option (Option Bytes) → Action
wrapped none = action_next
wrapped (some text) = one_info (json_info (text_of text))

module _ (wrapper : Wrapper) where
  abbrev decoded : ZmtpMessage × Option PbError → Action
  decoded (message, some e) = action_next
  decoded (message, none) = wrapped (wrapper.json message.payload)

module _ {H : Type 0} (wrapper : Wrapper) (s : Skip) where
  unfoldable pub on_zmtp_message : Bytes → Vm H (Option Action)
  on_zmtp_message payload = do
    result ← or_trap (unmarshal_zmtp_message s payload empty_zmtp_message)
    pure (some (decoded wrapper result))

  unfoldable pub on_custom_message : CustomMessageCtx → Vm H (CustomMessageCtx × Option Action)
  on_custom_message ctx =
      if ctx.hook_point == protocol_parse && ctx.type_code == protocol_zmtp
      then (do action ← on_zmtp_message ctx.payload; pure (ctx, action))
      else pure (ctx, some action_next)

  abbrev pub zmtp_parser : Parser H
  zmtp_parser = record (default_parser s none) {
    on_custom_message = on_custom_message;
    hook_in = pure (hook_point_custom_message ∷ []);
    custom_message_hook_in = pure (custom_message_hook_protocol protocol_zmtp true);
  }

  -- A ZMTP message that was encoded as MarshalVT does is unwrapped: the result has the JSON of its
  -- payload. The message has no unknown fields and is shorter than 2^31 bytes.
  pub on_zmtp_message_lem :
      (v : Varint) (m : ZmtpMessage) (json : Bytes) (h : H)
      → IsBase128 v
      → m.unknown_fields ≡ []
      → length (zmtp_message_bytes v m) < 2 ^ 31
      → wrapper.json m.payload ≡ some (some json)
      → on_zmtp_message (zmtp_message_bytes v m) h ≡ some (some (one_info (json_info json)), h)
  unfolding on_zmtp_message
  on_zmtp_message_lem v m json h base none_unknown short e =
      rw (unmarshal-zmtp_message_bytes v base s m none_unknown short, e)

  -- OnCustomMessage on a context of the hook and the type of ZMTP with such a payload.
  pub on_custom_message_json :
      (v : Varint) (c : CustomMessageCtx) (m : ZmtpMessage) (json : Bytes) (h : H)
      → IsBase128 v
      → c.hook_point ≡ protocol_parse
      → c.type_code ≡ protocol_zmtp
      → c.payload ≡ zmtp_message_bytes v m
      → m.unknown_fields ≡ []
      → length (zmtp_message_bytes v m) < 2 ^ 31
      → wrapper.json m.payload ≡ some (some json)
      → on_custom_message c h ≡ some ((c, some (one_info (json_info json))), h)
  unfolding on_custom_message
  on_custom_message_json v c m json h base hook code p none_unknown short e =
      let test : (c.hook_point == protocol_parse && c.type_code == protocol_zmtp) ≡ true =
        ground arith in
      let message : on_zmtp_message c.payload h ≡ some (some (one_info (json_info json)), h) =
        ap (λ bs. on_zmtp_message bs h) p
        ∙ on_zmtp_message_lem v m json h base none_unknown short e in
      rw (test, message)
