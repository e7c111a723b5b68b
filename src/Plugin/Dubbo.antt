-- ===== src/Plugin/Dubbo.antt =====
-- example/dubbo/dubbo.go. The package fastjson is a parameter.
use deepflow_wasm_go_sdk.Prelude.{
  ℕ, Bool, Option, none, some, [], ◌∷◌, ltb, leb, ◌==◌, if◌then◌else◌, length,
}
use deepflow_wasm_go_sdk.Prelude.Int.{ℤ, pos, negsuc}
use deepflow_wasm_go_sdk.Prelude.Text.{codes}
use deepflow_wasm_go_sdk.Go.Slices.{Bytes, slice}
use deepflow_wasm_go_sdk.Log.{dubbo_empty}
use deepflow_wasm_go_sdk.Host.{
  CustomMessageCtx, L7ProtocolInfo, direction_request, resp_status_ok, resp_status_server_err,
  resp_status_client_err,
}
use deepflow_wasm_go_sdk.Agent.{HostFunctions, Vm, pure, ◌>>=◌, ◌>>◌, or_panic, log}
use deepflow_wasm_go_sdk.Pb.Unmarshal.{Skip}
use deepflow_wasm_go_sdk.Parser.Action.{Action, action_abort, empty_info, empty_response}
use deepflow_wasm_go_sdk.Parser.Hooks.{
  hook_point_custom_message, protocol_dubbo, custom_message_hook_protocol,
}
use deepflow_wasm_go_sdk.Parser.Default.{default_parser}
use deepflow_wasm_go_sdk.Parser.Interface.{Parser}
use deepflow_wasm_go_sdk.Plugin.{one_info, in_range, payload_or_abort}

-- fastjson.Exists, GetInt and GetString of a key
pub record FastJson : Type 0 where
  pub exists : Bytes → Bytes → Bool
  pub get_int : Bytes → Bytes → ℤ
  pub get_string : Bytes → Bytes → Bytes

abbrev at_least : ℕ → ℤ → Bool
at_least n (pos m) = leb n m
at_least n (negsuc m) = Bool.false

abbrev status_of : ℤ → ℕ
status_of code =
    if at_least 500 code
    then resp_status_server_err
    else if in_range 400 500 code
    then resp_status_client_err
    else resp_status_ok

module _ (json : FastJson) where
  open json use {exists, get_int, get_string}

  -- The result of a returned value.
  unfoldable pub return_value_info : Bytes → L7ProtocolInfo
  return_value_info v =
      let code : ℤ =
        if exists v (codes "status_code") then get_int v (codes "status_code") else pos 0 in
      let exception : Bytes =
        if exists v (codes "exception") then get_string v (codes "exception") else [] in
      record empty_info {
        resp = some (record empty_response {
          code = some code;
          status = some (status_of code);
          result = v;
          exception = exception;
        });
        kv = record { key = codes "custom_exception"; val = exception } ∷ [];
      }

  module _ {H : Type 0} (host : HostFunctions H) where
    unfoldable pub on_custom_req : CustomMessageCtx → Vm H (CustomMessageCtx × Option Action)
    on_custom_req ctx = do
      (base_ctx, action) ← payload_or_abort host ctx.base_ctx (λ payload. pure (some action_abort))
      pure (record ctx { base_ctx = base_ctx }, action)

    abbrev on_resp_payload : Bytes → Vm H (Option Action)
    on_resp_payload payload =
        if ltb (length payload) 17 then log host dubbo_empty >> pure (some action_abort) else (do
          return_value ← or_panic (slice payload 17 (length payload))
          pure (some (one_info (return_value_info return_value))))

    unfoldable pub on_custom_resp : CustomMessageCtx → Vm H (CustomMessageCtx × Option Action)
    on_custom_resp ctx = do
      (base_ctx, action) ← payload_or_abort host ctx.base_ctx on_resp_payload
      pure (record ctx { base_ctx = base_ctx }, action)

    unfoldable pub on_custom_message : CustomMessageCtx → Vm H (CustomMessageCtx × Option Action)
    on_custom_message ctx =
        if ctx.base_ctx.direction == direction_request
        then on_custom_req ctx
        else on_custom_resp ctx

    abbrev pub dubbo_parser : Skip → Parser H
    dubbo_parser s = record (default_parser s none) {
      on_custom_message = on_custom_message;
      hook_in = pure (hook_point_custom_message ∷ []);
      custom_message_hook_in = pure (custom_message_hook_protocol protocol_dubbo Bool.true);
    }
