-- ===== src/Plugin/Nrpc.antt =====
-- example/nats/nats.go: nRPC over NATS. The state of the plugin is the map `kv`, from the subject of a
-- reply to the function that was called. The package pb is generated: its ProtobufToJson is a
-- parameter.
pub mod Replies
pub mod History
pub mod Calls
use deepflow_wasm_go_sdk.Prelude.{
  Bool, true, false, Option, none, some, List, [], ◌∷◌, if◌then◌else◌,
}
use deepflow_wasm_go_sdk.Prelude.Text.{codes, bytes_eq}
use deepflow_wasm_go_sdk.Go.Slices.{Bytes}
use deepflow_wasm_go_sdk.Go.Strings.{cut}
use deepflow_wasm_go_sdk.Host.{KeyVal, L7ProtocolInfo}
use deepflow_wasm_go_sdk.Agent.{Vm, pure, ◌>>=◌, ◌>>◌}
use deepflow_wasm_go_sdk.Pb.Messages.{NatsMessage}
use deepflow_wasm_go_sdk.Pb.Unmarshal.{Skip}
use deepflow_wasm_go_sdk.Parser.Action.{
  Action, action_next, empty_info, empty_request, empty_response,
}
use deepflow_wasm_go_sdk.Parser.Hooks.{
  hook_point_custom_message, protocol_nats, custom_message_hook_protocol,
}
use deepflow_wasm_go_sdk.Parser.Default.{default_parser}
use deepflow_wasm_go_sdk.Parser.Interface.{Parser}
use deepflow_wasm_go_sdk.Plugin.{one_info}
use deepflow_wasm_go_sdk.Plugin.Stateful.{state, set_state}

-- A map[string]string: what was assigned last stands first.
abbrev pub Kv : Type 0
Kv = List (Bytes × Bytes)

unfoldable pub lookup : Kv → Bytes → Option Bytes
lookup [] key = none
lookup ((k, v) ∷ kv) key = let later = lookup kv key in if bytes_eq k key then some v else later

abbrev pub assign : Bytes → Bytes → Kv → Kv
assign key v kv = (key, v) ∷ kv

-- pb.ProtobufToJson of a service, a method, whether it is a request, and the payload.
pub record Json : Type 0 where
  pub protobuf_to_json : Bytes → Bytes → Bool → Bytes → Bytes

-- The service and the method: the parts of the function around the first dot, if it is not in front.
abbrev around_dot : Option (Bytes × Bytes) → Bytes × Bytes
around_dot (some (b ∷ service, method)) = (b ∷ service, method)
around_dot (some ([], method)) = ([], [])
around_dot none = ([], [])

unfoldable pub names_of : Bytes → Bytes × Bytes
names_of function = around_dot (cut 46 function)

module _ (json : Json) where
  open json use {protobuf_to_json}

  abbrev pub call_info : Bytes → Bytes → Bool → Bytes → L7ProtocolInfo
  call_info function call_id is_request payload =
      let names = names_of function in
      record empty_info {
        resp = some empty_response;
        req = some empty_request;
        kv =
            record {
              key = codes "json_payload";
              val = protobuf_to_json names.0 names.1 is_request payload;
            }
            ∷ record { key = codes "call_id"; val = call_id }
            ∷ [];
        l7_protocol_str = codes "nRPC";
      }

  abbrev pub reply_action : NatsMessage → Option Bytes → Action
  reply_action message none = action_next
  reply_action message (some function) =
      one_info (call_info function message.subject false message.payload)

  module _ {H : Type 0} where
    abbrev pub on_reply_to : NatsMessage → Bytes → Vm (H × Kv) (Option Action)
    on_reply_to message (b ∷ reply_to) = do
      kv ← state
      set_state (assign (b ∷ reply_to) message.subject kv)
      pure (some (one_info (call_info message.subject (b ∷ reply_to) true message.payload)))
    on_reply_to message [] = do
      kv ← state
      pure (some (reply_action message (lookup kv message.subject)))

    unfoldable pub on_nats_message : NatsMessage → Vm (H × Kv) (Option Action)
    on_nats_message message = on_reply_to message message.reply_to

    abbrev pub nrpc_parser : Skip → Parser (H × Kv)
    nrpc_parser s = record (default_parser s (some on_nats_message)) {
      on_nats_message = on_nats_message;
      hook_in = pure (hook_point_custom_message ∷ []);
      custom_message_hook_in = pure (custom_message_hook_protocol protocol_nats true);
    }
