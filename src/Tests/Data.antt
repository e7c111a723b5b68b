-- ===== src/Tests/Data.antt =====
-- The data of the tests: varints, contexts, an agent and plugins.
use deepflow_wasm_go_sdk.Prelude.{
  ℕ, ◌-◌, ◌≤◌, ◌≡◌, ◌≢◌, refl, true, ◌&&◌, none, some, List, [], ◌∷◌, arith, leb, if◌then◌else◌,
  length, le→leb, inl,
}
use deepflow_wasm_go_sdk.Prelude.Int.{pos}
use deepflow_wasm_go_sdk.Go.Result.{Result, ok, panic}
use deepflow_wasm_go_sdk.Go.Slices.{Bytes}
use deepflow_wasm_go_sdk.Go.Copy.{overwrite}
use deepflow_wasm_go_sdk.Host.{
  ParseCtx, HttpReqCtx, HttpRespCtx, CustomMessageCtx, Request, Response, L7ProtocolInfo,
}
use deepflow_wasm_go_sdk.Serde.ParseCtx.Format.{IsValid}
use deepflow_wasm_go_sdk.Pb.Varint.{Varint}
use deepflow_wasm_go_sdk.Pb.Unmarshal.{Skip}
use deepflow_wasm_go_sdk.Pb.Unmarshal.Field.{varint_groups}
use deepflow_wasm_go_sdk.Pb.Messages.{NatsMessage, ZmtpMessage}
use deepflow_wasm_go_sdk.Agent.{HostFunctions}
use deepflow_wasm_go_sdk.Parser.Action.{Action, empty_info, empty_request, empty_response}
use deepflow_wasm_go_sdk.Parser.Hooks.{hook_point_payload_parse, hook_point_http_req}
use deepflow_wasm_go_sdk.Parser.Interface.{Parser, Check}

abbrev write_groups : Bytes → ℕ → Bytes → Result (Bytes × ℕ)
write_groups buf i xs =
    if leb (length xs) i && leb i (length buf)
    then ok (overwrite buf (i - length xs) xs, i - length xs)
    else panic

pub write_groups_fits :
    (buf : Bytes) (i : ℕ) (xs : Bytes)
    → length xs ≤ i
    → i ≤ length buf
    → write_groups buf i xs ≡ ok (overwrite buf (i - length xs) xs, i - length xs)
write_groups_fits buf i xs h k = rw (le→leb (length xs) i h, le→leb i (length buf) k)

abbrev pub base128 : Varint
base128 = record {
  size_of_varint = λ v. length (varint_groups v);
  encode_varint = λ buf i v. write_groups buf i (varint_groups v);
  varint = varint_groups;
  length-varint = λ v. refl;
  encode_varint_lem = λ buf i v h k. write_groups_fits buf i (varint_groups v) h k;
}

pub no_record : (n : ℕ) → none ≡ some (pos n) → n ≢ 0
no_record n e = cc

-- A decoder that skips nothing.
abbrev pub no_skip : Skip
no_skip = record { skip = λ bs. none; skip_some = λ bs. no_record }

-- A DNS request over IPv4 of the process "ab".
abbrev pub dns_ctx : ParseCtx
dns_ctx = record {
  src_ip = 10 ∷ 0 ∷ 0 ∷ 1 ∷ [];
  src_port = 40000;
  dst_ip = 10 ∷ 0 ∷ 0 ∷ 2 ∷ [];
  dst_port = 53;
  l4 = 17;
  l7 = 1;
  ebpf_type = 255;
  time = 1700000000000000;
  direction = 0;
  proc_name = 97 ∷ 98 ∷ [];
  flow_id = 4294967297;
  buf_size = 3;
  payload = none;
}

abbrev pub dns_ctx-IsValid : IsValid dns_ctx
dns_ctx-IsValid = record {
  addrs = inl (refl, refl);
  src_port = omega arith;
  dst_port = omega arith;
  l4 = refl;
  l7 = omega arith;
  ebpf_type = refl;
  time = omega arith;
  direction = refl;
  proc_name = omega arith;
  flow_id = omega arith;
  buf_size = omega arith;
  payload = refl;
}

abbrev pub dns_bytes : Bytes
dns_bytes =
    4 ∷ 10 ∷ 0 ∷ 0 ∷ 1 ∷ 10 ∷ 0 ∷ 0 ∷ 2 ∷ 0x9c ∷ 0x40 ∷ 0 ∷ 53 ∷ 17 ∷ 1 ∷ 255 ∷ 0 ∷ 6 ∷ 0x0a ∷ 0x24
    ∷ 0x18 ∷ 0x1e ∷ 0x40 ∷ 0 ∷ 0 ∷ 2 ∷ 97 ∷ 98 ∷ 0 ∷ 0 ∷ 0 ∷ 1 ∷ 0 ∷ 0 ∷ 0 ∷ 1 ∷ 0 ∷ 3 ∷ []

abbrev pub req_ctx : HttpReqCtx
req_ctx = record {
  base_ctx = dns_ctx;
  path = 47 ∷ 97 ∷ [];
  host = 104 ∷ [];
  user_agent = [];
  referer = 114 ∷ [];
}

abbrev pub req_bytes : Bytes
req_bytes = 0 ∷ 2 ∷ 47 ∷ 97 ∷ 0 ∷ 1 ∷ 104 ∷ 0 ∷ 0 ∷ 0 ∷ 1 ∷ 114 ∷ []

abbrev pub resp_ctx : HttpRespCtx
resp_ctx = record { base_ctx = dns_ctx; code = 404; status = 4; endpoint = 101 ∷ [] }

abbrev pub resp_bytes : Bytes
resp_bytes = 1 ∷ 0x94 ∷ 4 ∷ 0 ∷ 1 ∷ 101 ∷ []

abbrev pub message_ctx : CustomMessageCtx
message_ctx = record { base_ctx = dns_ctx; hook_point = 1; type_code = 40; payload = 8 ∷ 1 ∷ [] }

abbrev pub message_bytes : Bytes
message_bytes = 0 ∷ 1 ∷ 0 ∷ 0 ∷ 0 ∷ 40 ∷ 0 ∷ 0 ∷ 0 ∷ 2 ∷ 8 ∷ 1 ∷ []

-- A result with a request, a response without a status, and an attribute.
abbrev pub request : Request
request = record empty_request { req_type = 65 ∷ []; resource = 47 ∷ [] }

abbrev pub response : Response
response = record empty_response { code = some (pos 404) }

abbrev pub info : L7ProtocolInfo
info = record empty_info {
  req_len = some (pos 300);
  request_id = some 7;
  req = some request;
  resp = some response;
  kv = record { key = 107 ∷ []; val = 118 ∷ [] } ∷ [];
}

abbrev pub act : Action
act = record { e = none; is_abort = true; payload_result = some info ∷ [] }

abbrev pub nats : NatsMessage
nats = record { subject = 115 ∷ []; reply_to = []; payload = 1 ∷ 2 ∷ []; unknown_fields = [] }

abbrev pub zmtp : ZmtpMessage
zmtp = record { match_pattern = some []; payload = 9 ∷ []; unknown_fields = 24 ∷ 1 ∷ [] }

-- An agent whose state is the list of what it was sent, an empty entry for a log. It writes the
-- context, and `told` for any other read.
abbrev pub agent : Bytes → HostFunctions (List Bytes)
agent told = record {
  wasm_log = λ h m. [] ∷ h;
  vm_read_ctx_base = λ h n. (h, dns_bytes, pos (length dns_bytes));
  vm_read_payload = λ h n. (h, told, pos (length told));
  vm_read_http_req_info = λ h n. (h, told, pos (length told));
  vm_read_http_resp_info = λ h n. (h, told, pos (length told));
  vm_read_custom_message_info = λ h n. (h, told, pos (length told));
  host_read_l7_protocol_info = λ h b. (b ∷ h, true);
  host_read_str_result = λ h b. (b ∷ h, true);
}

abbrev pub check : Check
check = record { proto_num = 20; proto_str = 100 ∷ 110 ∷ 115 ∷ []; direction = 1 }

-- A plugin that gives the same action for everything.
abbrev pub plugin : Action → Parser (List Bytes)
plugin a = record {
  on_http_req = λ c h. some ((c, some a), h);
  on_http_resp = λ c h. some ((c, some a), h);
  on_custom_message = λ c h. some ((c, some a), h);
  on_nats_message = λ c h. some (some a, h);
  on_check_payload = λ c h. some ((c, check), h);
  on_parse_payload = λ c h. some ((c, some a), h);
  hook_in = λ h. some (hook_point_payload_parse ∷ hook_point_http_req ∷ [], h);
  custom_message_hook_in = λ h. some (0, h);
}
