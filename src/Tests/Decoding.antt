-- ===== src/Tests/Decoding.antt =====
-- The decoding of messages, on messages of the tests.
use deepflow_wasm_go_sdk.Prelude.{
  ◌≡◌, ◌<◌, ◌^◌, refl, some, none, Option, List, [], ◌∷◌, length, arith,
}
use deepflow_wasm_go_sdk.Go.Slices.{Bytes}
use deepflow_wasm_go_sdk.Host.{CustomMessageCtx}
use deepflow_wasm_go_sdk.Agent.{Vm, pure, resume}
use deepflow_wasm_go_sdk.Pb.Messages.{NatsMessage}
use deepflow_wasm_go_sdk.Pb.Format.{nats_message_bytes, nonempty_bytes}
use deepflow_wasm_go_sdk.Pb.Unmarshal.{PbError, nats_fields, unmarshal, unmarshal_nats_message}
use deepflow_wasm_go_sdk.Pb.Unmarshal.Total.{unmarshal_ends}
use deepflow_wasm_go_sdk.Pb.Unmarshal.RoundTrip.{empty_nats_message, unmarshal-nats_message_bytes}
use deepflow_wasm_go_sdk.Parser.Action.{Action, action_abort}
use deepflow_wasm_go_sdk.Parser.Default.{default_on_custom_message, default_on_custom_message_nats}
use deepflow_wasm_go_sdk.Tests.Data.{base128, no_skip, dns_ctx, nats}

nats_short : length (nats_message_bytes base128 nats) < 2 ^ 31
unfolding nats_message_bytes nonempty_bytes
nats_short = omega arith

unmarshal-nats_message_bytes_example :
    unmarshal_nats_message no_skip (nats_message_bytes base128 nats) empty_nats_message
    ≡ some (nats, none)
unmarshal-nats_message_bytes_example =
    unmarshal-nats_message_bytes base128 (λ n h. refl) no_skip nats refl nats_short

unmarshal_ends_example :
    (r : NatsMessage × Option PbError) × (unmarshal no_skip nats_fields
        (10 ∷ 200 ∷ 1 ∷ [])
        empty_nats_message
      ≡ some r)
unmarshal_ends_example = unmarshal_ends no_skip nats_fields (10 ∷ 200 ∷ 1 ∷ []) empty_nats_message

abbrev nats_ctx : CustomMessageCtx
nats_ctx = record {
  base_ctx = dns_ctx;
  hook_point = 0;
  type_code = 104;
  payload = nats_message_bytes base128 nats;
}

-- A plugin that counts the bytes of the payloads.
abbrev on_nats : NatsMessage → Vm (List Bytes) (Option Action)
on_nats m h = some (some action_abort, m.payload ∷ h)

default_on_custom_message_nats_example :
    default_on_custom_message no_skip (some on_nats) nats_ctx []
    ≡ resume (λ act. pure (nats_ctx, act)) (on_nats nats [])
default_on_custom_message_nats_example =
    default_on_custom_message_nats no_skip base128 on_nats nats_ctx nats [] (λ n h. refl) refl refl
      refl refl nats_short
