-- ===== src/Plugin.antt =====
-- example/: the plugins. Each is a Parser; what it calls of packages that the repository does not
-- hold, and of net/http, encoding/json and compress/gzip, is a parameter.
pub mod Uprobe
pub mod Krpc
pub mod Http
pub mod Dns
pub mod Dubbo
pub mod Zmtp
pub mod Stateful
pub mod Nrpc
pub mod Llm
pub mod LlmTest
pub mod Load
pub mod Calls
pub mod Keeps
use deepflow_wasm_go_sdk.Prelude.{
  ℕ, ◌≡◌, refl, Bool, false, ◌&&◌, Option, none, some, List, [], ◌∷◌, leb, ltb, if◌then◌else◌,
}
use deepflow_wasm_go_sdk.Prelude.Int.{ℤ, pos, negsuc}
use deepflow_wasm_go_sdk.Go.Slices.{Bytes}
use deepflow_wasm_go_sdk.Host.{
  ParseCtx, L7ProtocolInfo, resp_status_ok, resp_status_client_err, resp_status_server_err,
}
use deepflow_wasm_go_sdk.Agent.{HostFunctions, Vm, pure, resume, ◌>>=◌}
use deepflow_wasm_go_sdk.Agent.Payload.{get_payload, get_payload_kept}
use deepflow_wasm_go_sdk.Parser.Action.{
  Error, read_payload_fail, Action, action_abort_with_err, parse_action_abort_with_l7_info,
}
use deepflow_wasm_go_sdk.Parser.Default.{no_check}
use deepflow_wasm_go_sdk.Parser.Interface.{Check}

-- A value, or an error that is returned.
pub data Returned (A : Type 0) : Type 0 where
  value : A → Returned A
  error : Error → Returned A

abbrev pub checked : ℕ → Bytes → Check
checked num name = record { proto_num = num; proto_str = name; direction = 0 }

abbrev pub one_info : L7ProtocolInfo → Action
one_info info = parse_action_abort_with_l7_info (some info ∷ [])

-- payload, err := ...; if err != nil { return sdk.ActionAbortWithErr(err) }
abbrev pub or_abort :
    {H A : Type 0} → (A → Vm H (Option Action)) → Returned A → Vm H (Option Action)
or_abort k (value a) = k a
or_abort k (error e) = pure (some (action_abort_with_err (some e)))

abbrev pub in_range : ℕ → ℕ → ℤ → Bool
in_range lo hi (pos n) = leb lo n && ltb n hi
in_range lo hi (negsuc n) = false

-- getStatus: the status of an HTTP status code.
unfoldable pub get_status : ℤ → ℕ
get_status code =
    if in_range 200 400 code
    then resp_status_ok
    else if in_range 400 500 code
    then resp_status_client_err
    else resp_status_server_err

module _ {H : Type 0} (host : HostFunctions H) where
  abbrev pub with_payload : {A : Type 0} → (Bytes → Vm H A) → A → Option Bytes → Vm H A
  with_payload k failed none = pure failed
  with_payload k failed (some payload) = k payload

  -- payload, err := ctx.GetPayload(); if err != nil { return failed }
  unfoldable pub payload_or : {A : Type 0} → ParseCtx → A → (Bytes → Vm H A) → Vm H (ParseCtx × A)
  payload_or ctx failed k = do
    (ctx', payload) ← get_payload host ctx
    a ← with_payload k failed payload
    pure (ctx', a)

  -- The same, with the action that carries the error.
  abbrev pub payload_or_abort :
      ParseCtx → (Bytes → Vm H (Option Action)) → Vm H (ParseCtx × Option Action)
  payload_or_abort ctx k = payload_or ctx (some (action_abort_with_err (some read_payload_fail))) k

  pub payload_or_lem :
      {A : Type 0} (ctx ctx' : ParseCtx) (failed : A) (k : Bytes → Vm H A) (payload : Bytes)
      (h h' : H)
      → get_payload host ctx h ≡ some ((ctx', some payload), h')
      → payload_or ctx failed k h ≡ resume (λ a. pure (ctx', a)) (k payload h')
  unfolding payload_or
  payload_or_lem ctx ctx' failed k payload h h' e = rw e refl

  pub payload_or_kept :
      {A : Type 0} (ctx : ParseCtx) (failed : A) (k : Bytes → Vm H A) (payload : Bytes) (h : H)
      → ctx.payload ≡ some payload
      → payload_or ctx failed k h ≡ resume (λ a. pure (ctx, a)) (k payload h)
  payload_or_kept ctx failed k payload h e =
      payload_or_lem ctx ctx failed k payload h h (get_payload_kept host ctx payload h e)
