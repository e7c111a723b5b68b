-- ===== src/Plugin/Nrpc/Calls.antt =====
-- Calls of the agent with NATS messages, on the plugin of example/nats/nats.go.
use deepflow_wasm_go_sdk.Prelude.{
  ◌≡◌, ◌≤◌, ◌<◌, ◌^◌, refl, true, false, Option, none, some, List, [], ◌∷◌, map, length, arith,
}
use deepflow_wasm_go_sdk.Go.Result.{ok}
use deepflow_wasm_go_sdk.Go.Slices.{Bytes}
use deepflow_wasm_go_sdk.Host.{CustomMessageCtx, L7ProtocolInfo, protocol_parse}
use deepflow_wasm_go_sdk.Agent.{HostFunctions}
use deepflow_wasm_go_sdk.Serde.CustomMessage.{deserialize_custom_message_ctx}
use deepflow_wasm_go_sdk.Pb.Varint.{Varint}
use deepflow_wasm_go_sdk.Pb.Messages.{NatsMessage}
use deepflow_wasm_go_sdk.Pb.Format.{nats_message_bytes}
use deepflow_wasm_go_sdk.Pb.Unmarshal.{Skip}
use deepflow_wasm_go_sdk.Pb.Unmarshal.Field.{IsBase128}
use deepflow_wasm_go_sdk.Parser.Action.{Action, parse_action_abort_with_l7_info}
use deepflow_wasm_go_sdk.Parser.Hooks.{protocol_nats}
use deepflow_wasm_go_sdk.Parser.Default.{default_on_custom_message_nats}
use deepflow_wasm_go_sdk.Abi.Export.{on_custom_message}
use deepflow_wasm_go_sdk.Abi.Outcome.{delivered}
use deepflow_wasm_go_sdk.Abi.Handlers.{Wrote, on_custom_message_lem}
use deepflow_wasm_go_sdk.Plugin.Stateful.{beside}
use deepflow_wasm_go_sdk.Plugin.Nrpc.{
  Kv, lookup, assign, Json, call_info, reply_action, on_nats_message, on_reply_to, nrpc_parser,
}
use deepflow_wasm_go_sdk.Plugin.Nrpc.History.{asked, asked_with, answer_with, Tracks, assign-Tracks}

module _ (json : Json) where
  abbrev pub reply_infos : NatsMessage → Option Bytes → List L7ProtocolInfo
  reply_infos m none = []
  reply_infos m (some function) = call_info json function m.subject false m.payload ∷ []

  -- The results that the specification of History gives for a message behind a history.
  abbrev pub infos_with : Bytes → List NatsMessage → NatsMessage → List L7ProtocolInfo
  infos_with [] past m = reply_infos m (asked past m.subject)
  infos_with (b ∷ reply_to) past m = call_info json m.subject (b ∷ reply_to) true m.payload ∷ []

  -- The map behind a message.
  abbrev next : Bytes → Bytes → Kv → Kv
  next [] function kv = kv
  next (b ∷ reply_to) function kv = assign (b ∷ reply_to) function kv

  record Plain (a : Action) (infos : List L7ProtocolInfo) : Type 0 where
    no_error : a.e ≡ none
    results : a.payload_result ≡ map some infos
    single : length infos ≤ 1

  reply-Plain :
      (m : NatsMessage) (o : Option Bytes) → Plain (reply_action json m o) (reply_infos m o)
  unfolding parse_action_abort_with_l7_info
  reply-Plain m none = record { no_error = refl; results = refl; single = omega arith }
  reply-Plain m (some function) = record { no_error = refl; results = refl; single = omega arith }

  answer-Plain :
      (reply_to : Bytes) (past : List NatsMessage) (m : NatsMessage)
      → Plain (answer_with json reply_to past m) (infos_with reply_to past m)
  unfolding parse_action_abort_with_l7_info
  answer-Plain [] past m = reply-Plain m (asked past m.subject)
  answer-Plain (b ∷ bs) past m = record { no_error = refl; results = refl; single = omega arith }

  next-Tracks :
      (reply_to : Bytes) (m : NatsMessage) (kv : Kv) (past : List NatsMessage)
      → Tracks kv past
      → (subject : Bytes)
      → lookup (next reply_to m.subject kv) subject
        ≡ asked_with reply_to m.subject subject (asked past subject)
  next-Tracks [] m kv past t subject = t subject
  next-Tracks (b ∷ bs) m kv past t subject = assign-Tracks m b bs kv past t subject

  answered :
      {H : Type 0} (reply_to : Bytes) (m : NatsMessage) (h : H) (kv : Kv) (past : List NatsMessage)
      → Tracks kv past
      → on_reply_to json m reply_to (h, kv)
        ≡ some (some (answer_with json reply_to past m), (h, next reply_to m.subject kv))
  answered [] m h kv past t = rw (t m.subject)
  answered (b ∷ bs) m h kv past t = refl

  module _ {H : Type 0} (v : Varint) (host : HostFunctions H) where
    -- on_custom_message with the nRPC plugin, where its map stands for the history of the messages before, and the
    -- agent wrote a message that deserializeCustomMessageCtx reads, of the hook and the type of NATS, whose payload is a
    -- NatsMessage without unknown fields as MarshalVT encodes it, shorter than 2^31 bytes: the agent gets the
    -- results that the history gives for this message, and the map stands for the history with this message.
    pub on_custom_message_nrpc :
        (s : Skip) (c : CustomMessageCtx) (m : NatsMessage) (past : List NatsMessage) (x : H × Kv)
        (h2 : H) (kv : Kv) (param info : Bytes)
        → IsBase128 v
        → Wrote v
            (beside host)
            (beside {S = Kv} host).vm_read_custom_message_info
            x
            (h2, kv)
            param
            info
        → deserialize_custom_message_ctx param info ≡ ok c
        → c.hook_point ≡ protocol_parse
        → c.type_code ≡ protocol_nats
        → c.payload ≡ nats_message_bytes v m
        → m.unknown_fields ≡ []
        → length (nats_message_bytes v m) < 2 ^ 31
        → Tracks kv past
        → (kv' : Kv) × Tracks kv' (m ∷ past)
          × (on_custom_message v (beside host) (some (nrpc_parser json s)) x
              ≡ some (
                (answer_with json m.reply_to past m).is_abort,
                delivered v
                    (beside host)
                    (infos_with m.reply_to past m)
                    c.base_ctx.direction
                    (h2, kv'),
              ))
    unfolding asked on_nats_message
    on_custom_message_nrpc s c m past x h2 kv param info base w e hook code p unknown short t =
        let plain = answer-Plain m.reply_to past m in
        (
          next m.reply_to m.subject kv,
          next-Tracks m.reply_to m kv past t,
          on_custom_message_lem v (beside host) (nrpc_parser json s) c c
              (answer_with json m.reply_to past m) (infos_with m.reply_to past m) x (h2, kv)
              (h2, next m.reply_to m.subject kv) param info w e
              (rw
                (
                  default_on_custom_message_nats s v (on_nats_message json) c m (h2, kv) base hook
                      code p unknown short,
                  answered m.reply_to m h2 kv past t,
                )
                refl)
              plain.no_error plain.results plain.single,
        )
