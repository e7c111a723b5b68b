-- ===== src/Parser/Interface.antt =====
-- sdk/parser.go, the interface Parser: what the SDK calls of a plugin. A method may call the agent,
-- and it gets a pointer to its context, so that it gives the context back as it leaves it.
use deepflow_wasm_go_sdk.Prelude.{ℕ, Option, List}
use deepflow_wasm_go_sdk.Go.Slices.{Bytes}
use deepflow_wasm_go_sdk.Host.{ParseCtx, HttpReqCtx, HttpRespCtx, CustomMessageCtx}
use deepflow_wasm_go_sdk.Agent.{Vm}
use deepflow_wasm_go_sdk.Pb.Messages.{NatsMessage}
use deepflow_wasm_go_sdk.Parser.Action.{Action}
use deepflow_wasm_go_sdk.Parser.Hooks.{HookBitmap}

-- The three results of OnCheckPayload; `proto_num` 0 says that the check failed.
pub record Check : Type 0 where
  pub proto_num : ℕ
  pub proto_str : Bytes
  pub direction : ℕ

pub record Parser (H : Type 0) : Type 0 where
  pub on_http_req : HttpReqCtx → Vm H (HttpReqCtx × Option Action)
  pub on_http_resp : HttpRespCtx → Vm H (HttpRespCtx × Option Action)
  pub on_custom_message : CustomMessageCtx → Vm H (CustomMessageCtx × Option Action)
  pub on_nats_message : NatsMessage → Vm H (Option Action)
  pub on_check_payload : ParseCtx → Vm H (ParseCtx × Check)
  pub on_parse_payload : ParseCtx → Vm H (ParseCtx × Option Action)
  pub hook_in : Vm H (List HookBitmap)
  pub custom_message_hook_in : Vm H ℕ
