-- ===== src/Serde/L7Info/Status.antt =====
-- sdk/serde.go: the status of a response, in the message and in the context.
use deepflow_wasm_go_sdk.Prelude.{ℕ, ◌≡◌, true, some, arith}
use deepflow_wasm_go_sdk.Prelude.Int.{pos}
use deepflow_wasm_go_sdk.Serde.HttpResp.{is_resp_status}
use deepflow_wasm_go_sdk.Serde.L7Info.Message.{to_pb_status}

-- A status that deserializeHttpRespCtx accepts has the same number in the message.
pub to_pb_status_same : (s : ℕ) → is_resp_status s ≡ true → to_pb_status (some s) ≡ pos s
unfolding to_pb_status
to_pb_status_same s h = ground arith
