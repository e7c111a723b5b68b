-- ===== src/Parser/Action.antt =====
-- sdk/parser.go: actions. The interface Action has unexported methods, so that `*action` alone
-- implements it; a nil Action is `none` where one is returned.
use deepflow_wasm_go_sdk.Prelude.{ℕ, Bool, true, false, Option, none, some, List, [], ◌∷◌}
use deepflow_wasm_go_sdk.Go.Slices.{Bytes}
use deepflow_wasm_go_sdk.Host.{Request, Response, Trace, KeyVal, L7ProtocolInfo}

-- The errors that the SDK and the plugins make, with the values that are formatted into them, and
-- those of other packages. The text of an error is not modelled, as that of a log message is not.
pub data Error : Type 0 where
  read_payload_fail : Error
  header_short data_short data_length_short : Error
  header_kv_short : ℕ → ℕ → ℕ → Error
  data_payload_short : ℕ → ℕ → Error
  bad_int : Bytes → Error
  foreign : Bytes → Error

pub record Action : Type 0 where
  pub e : Option Error
  pub is_abort : Bool
  pub payload_result : List (Option L7ProtocolInfo)

abbrev pub action_abort : Action
action_abort = record { e = none; is_abort = true; payload_result = [] }

abbrev pub action_abort_with_err : Option Error → Action
action_abort_with_err err = record { e = err; is_abort = true; payload_result = [] }

abbrev pub action_next : Action
action_next = record { e = none; is_abort = false; payload_result = [] }

-- The zero values of the structs.
abbrev pub empty_request : Request
empty_request = record { version = []; req_type = []; domain = []; resource = []; endpoint = [] }

abbrev pub empty_response : Response
empty_response = record {
  status = none;
  code = none;
  result = [];
  exception = [];
  req_type = [];
  endpoint = [];
}

abbrev pub empty_info : L7ProtocolInfo
empty_info = record {
  req_len = none;
  resp_len = none;
  request_id = none;
  req = none;
  resp = none;
  trace = none;
  kv = [];
  protocol_merge = false;
  is_end = false;
  is_async = none;
  is_reversed = none;
  biz_type = 0;
  biz_code = [];
  biz_scenario = [];
  biz_response_code = [];
  l7_protocol_str = [];
}

abbrev abort_with : List (Option L7ProtocolInfo) → Action
abort_with infos = record { e = none; is_abort = true; payload_result = infos }

abbrev pub or_empty {ℓ} : {A : Type ℓ} → Option A → A → A
or_empty none a = a
or_empty (some a) b = a

unfoldable pub http_req_action_abort_with_result :
    Option Request → Option Trace → List KeyVal → Action
http_req_action_abort_with_result req trace kv = abort_with (
    some (record empty_info { req = some (or_empty req empty_request); trace = trace; kv = kv })
    ∷ [])

unfoldable pub http_resp_action_abort_with_result :
    Option Response → Option Trace → List KeyVal → Action
http_resp_action_abort_with_result resp trace kv = abort_with (
    some (record empty_info { resp = some (or_empty resp empty_response); trace = trace; kv = kv })
    ∷ [])

unfoldable pub custom_message_action_abort_with_result : List KeyVal → Action
custom_message_action_abort_with_result kv = abort_with (
    some (record empty_info { resp = some empty_response; req = some empty_request; kv = kv }) ∷ [])

unfoldable pub parse_action_abort_with_l7_info : List (Option L7ProtocolInfo) → Action
parse_action_abort_with_l7_info infos = abort_with infos
