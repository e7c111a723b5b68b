-- ===== src/Parser/Hooks.antt =====
-- sdk/parser.go: the hook points as bitmaps of 128 bits, and the hook of a custom message.
use deepflow_wasm_go_sdk.Prelude.{ℕ, ◌*◌, ◌%◌, ◌^◌, Bool, bit_or, if◌then◌else◌}
use deepflow_wasm_go_sdk.Host.{protocol_parse}

-- [2]uint64: the high half stands first.
pub record HookBitmap : Type 0 where
  pub hi : ℕ
  pub lo : ℕ

abbrev pub hook_point_http_req : HookBitmap
hook_point_http_req = record { hi = 2 ^ 63; lo = 0 }

abbrev pub hook_point_http_resp : HookBitmap
hook_point_http_resp = record { hi = 2 ^ 62; lo = 0 }

abbrev pub hook_point_custom_message : HookBitmap
hook_point_custom_message = record { hi = 2 ^ 61; lo = 0 }

abbrev pub hook_point_payload_parse : HookBitmap
hook_point_payload_parse = record { hi = 0; lo = 1 }

abbrev pub protocol_dubbo : ℕ
protocol_dubbo = 40

abbrev pub protocol_nats : ℕ
protocol_nats = 104

abbrev pub protocol_zmtp : ℕ
protocol_zmtp = 106

-- 0xff << 48
abbrev pub custom_message_hook_all : ℕ
custom_message_hook_all = 0xff * 2 ^ 48

-- CustomMessageHookProtocol, in uint64.
unfoldable pub custom_message_hook_protocol : ℕ → Bool → ℕ
custom_message_hook_protocol protocol is_request =
    let type_code = if is_request then protocol else bit_or protocol (2 ^ 16) in
    bit_or (protocol_parse * 2 ^ 32 % 2 ^ 64) type_code
