-- ===== src/Tests/Nats.antt =====
-- A NATS message of the agent on the plugin of nats.go.
use deepflow_wasm_go_sdk.Prelude.{◌≡◌, ◌<◌, ◌^◌, refl, some, [], ◌∷◌, length, arith}
use deepflow_wasm_go_sdk.Prelude.Text.{codes}
use deepflow_wasm_go_sdk.Go.Result.{ok}
use deepflow_wasm_go_sdk.Go.Slices.{Bytes, slice, index}
use deepflow_wasm_go_sdk.Go.Binary.{uint16, uint32, uint64}
use deepflow_wasm_go_sdk.Host.{CustomMessageCtx}
use deepflow_wasm_go_sdk.Serde.ParseCtx.{deserialize_parse_ctx}
use deepflow_wasm_go_sdk.Serde.CustomMessage.{deserialize_custom_message_ctx}
use deepflow_wasm_go_sdk.Pb.Messages.{NatsMessage}
use deepflow_wasm_go_sdk.Pb.Format.{nats_message_bytes, nonempty_bytes}
use deepflow_wasm_go_sdk.Abi.Export.{on_custom_message}
use deepflow_wasm_go_sdk.Abi.Outcome.{delivered}
use deepflow_wasm_go_sdk.Abi.Handlers.{Wrote}
use deepflow_wasm_go_sdk.Plugin.Stateful.{beside}
use deepflow_wasm_go_sdk.Plugin.Nrpc.{Kv, Json, lookup, nrpc_parser}
use deepflow_wasm_go_sdk.Plugin.Nrpc.History.{asked, Tracks, answer_with}
use deepflow_wasm_go_sdk.Plugin.Nrpc.Calls.{infos_with, on_custom_message_nrpc}
use deepflow_wasm_go_sdk.Tests.Data.{base128, no_skip, dns_ctx, dns_bytes, agent}

abbrev json : Json
json = record { protobuf_to_json = λ service method is_request payload. payload }

abbrev request : NatsMessage
request = record { subject = codes "a.b"; reply_to = codes "r"; payload = []; unknown_fields = [] }

abbrev reply : NatsMessage
reply = record { subject = codes "r"; reply_to = []; payload = 5 ∷ []; unknown_fields = [] }

abbrev told : Bytes
told = 0 ∷ 0 ∷ 0 ∷ 0 ∷ 0 ∷ 104 ∷ 0 ∷ 0 ∷ 0 ∷ 6 ∷ 10 ∷ 1 ∷ 114 ∷ 26 ∷ 1 ∷ 5 ∷ []

abbrev reply_ctx : CustomMessageCtx
reply_ctx = record {
  base_ctx = dns_ctx;
  hook_point = 0;
  type_code = 104;
  payload = 10 ∷ 1 ∷ 114 ∷ 26 ∷ 1 ∷ 5 ∷ [];
}

reply_bytes : 10 ∷ 1 ∷ 114 ∷ 26 ∷ 1 ∷ 5 ∷ [] ≡ nats_message_bytes base128 reply
unfolding nats_message_bytes nonempty_bytes
reply_bytes = refl

reply_short : length (nats_message_bytes base128 reply) < 2 ^ 31
unfolding nats_message_bytes nonempty_bytes
reply_short = omega arith

told_read : deserialize_custom_message_ctx dns_bytes told ≡ ok reply_ctx
unfolding deserialize_custom_message_ctx deserialize_parse_ctx slice index uint16 uint32 uint64
told_read = refl

-- The map behind the request.
abbrev noted : Kv
noted = (codes "r", codes "a.b") ∷ []

told-Wrote :
    Wrote base128
      (beside (agent told))
      (beside {S = Kv} (agent told)).vm_read_custom_message_info
      ([], noted)
      ([], noted)
      dns_bytes
      told
told-Wrote = record {
  between = ([], noted);
  param_read = refl;
  info_read = refl;
  param_some = omega arith;
  info_some = omega arith;
  param_fits = omega arith;
  info_fits = omega arith;
}

noted-Tracks : Tracks noted (request ∷ [])
unfolding lookup asked
noted-Tracks subject = refl

on_custom_message_nrpc_example :
    (kv' : Kv) × Tracks kv' (reply ∷ request ∷ [])
    × (on_custom_message base128 (beside (agent told)) (some (nrpc_parser json no_skip)) ([], noted)
        ≡ some (
          (answer_with json [] (request ∷ []) reply).is_abort,
          delivered base128
              (beside (agent told))
              (infos_with json [] (request ∷ []) reply)
              0
              ([], kv'),
        ))
on_custom_message_nrpc_example =
    on_custom_message_nrpc json base128 (agent told) no_skip reply_ctx reply (request ∷ [])
      ([], noted) [] noted dns_bytes told (λ n h. refl) told-Wrote told_read refl refl reply_bytes
      refl reply_short noted-Tracks
