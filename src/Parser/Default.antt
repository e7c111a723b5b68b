-- ===== src/Parser/Default.antt =====
-- sdk/parser.go, DefaultParser, which plugins embed: what they do not declare, it does.
use deepflow_wasm_go_sdk.Prelude.{
  ◌≡◌, true, Option, none, some, [], ◌<◌, ◌^◌, length, if◌then◌else◌,
}
use deepflow_wasm_go_sdk.Host.{CustomMessageCtx, check_parse_protocol, protocol_parse}
use deepflow_wasm_go_sdk.Agent.{Vm, pure, resume, ◌>>=◌, or_trap}
use deepflow_wasm_go_sdk.Pb.Messages.{NatsMessage}
use deepflow_wasm_go_sdk.Pb.Varint.{Varint}
use deepflow_wasm_go_sdk.Pb.Format.{nats_message_bytes}
use deepflow_wasm_go_sdk.Pb.Unmarshal.{Skip, unmarshal_nats_message}
use deepflow_wasm_go_sdk.Pb.Unmarshal.Field.{IsBase128}
use deepflow_wasm_go_sdk.Pb.Unmarshal.RoundTrip.{empty_nats_message, unmarshal-nats_message_bytes}
use deepflow_wasm_go_sdk.Parser.Action.{Action, action_next}
use deepflow_wasm_go_sdk.Parser.Hooks.{protocol_nats}
use deepflow_wasm_go_sdk.Parser.Interface.{Parser, Check}

abbrev pub no_check : Check
no_check = record { proto_num = 0; proto_str = []; direction = 0 }

module _ {H : Type 0} (s : Skip) where
  -- p.Parser.OnNatsMessage(message): the embedded Parser is nil unless the plugin has set it.
  abbrev pub embedded_nats :
      Option (NatsMessage → Vm H (Option Action)) → NatsMessage → Vm H (Option Action)
  embedded_nats none message h = none
  embedded_nats (some f) message h = f message h

  -- DefaultParser.OnCustomMessage. The error of UnmarshalVT is dropped, so that the message has the
  -- fields in front of it. UnmarshalVT always ends, and then there is a message.
  unfoldable pub default_on_custom_message :
      Option (NatsMessage → Vm H (Option Action))
      → CustomMessageCtx
      → Vm H (CustomMessageCtx × Option Action)
  default_on_custom_message embedded ctx =
      if check_parse_protocol ctx protocol_nats true
      then (do
        (message, e) ← or_trap (unmarshal_nats_message s ctx.payload empty_nats_message)
        act ← embedded_nats embedded message
        pure (ctx, act))
      else pure (ctx, some action_next)

  abbrev pub default_parser : Option (NatsMessage → Vm H (Option Action)) → Parser H
  default_parser embedded = record {
    on_http_req = λ ctx. pure (ctx, some action_next);
    on_http_resp = λ ctx. pure (ctx, some action_next);
    on_custom_message = default_on_custom_message embedded;
    on_nats_message = λ message. pure (some action_next);
    on_check_payload = λ ctx. pure (ctx, no_check);
    on_parse_payload = λ ctx. pure (ctx, some action_next);
    hook_in = pure [];
    custom_message_hook_in = pure 0;
  }

  -- A NATS message that the agent encoded as MarshalVT does reaches the plugin's OnNatsMessage as it
  -- was, if it has no unknown fields and is shorter than 2^31 bytes.
  pub default_on_custom_message_nats :
      (v : Varint) (on_nats : NatsMessage → Vm H (Option Action)) (ctx : CustomMessageCtx)
      (m : NatsMessage) (h : H)
      → IsBase128 v
      → ctx.hook_point ≡ protocol_parse
      → ctx.type_code ≡ protocol_nats
      → ctx.payload ≡ nats_message_bytes v m
      → m.unknown_fields ≡ []
      → length (nats_message_bytes v m) < 2 ^ 31
      → default_on_custom_message (some on_nats) ctx h
        ≡ resume (λ act. pure (ctx, act)) (on_nats m h)
  unfolding default_on_custom_message check_parse_protocol
  default_on_custom_message_nats v on_nats ctx m h base hook code p none_unknown short =
      simp (hook, code, p, unmarshal-nats_message_bytes v base s m none_unknown short)
