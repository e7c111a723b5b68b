-- ===== src/Tests/Replies.antt =====
-- Whole calls of the agent on the DNS plugin and on the plugin that rewrites a status.
use deepflow_wasm_go_sdk.Prelude.{
  ◌≡◌, refl, true, false, Option, some, none, List, [], ◌∷◌, inl, inr, arith,
}
use deepflow_wasm_go_sdk.Prelude.Int.{pos}
use deepflow_wasm_go_sdk.Prelude.Text.{codes}
use deepflow_wasm_go_sdk.Go.Slices.{Bytes}
use deepflow_wasm_go_sdk.Host.{L7ProtocolInfo, direction_response}
use deepflow_wasm_go_sdk.Agent.{HostFunctions}
use deepflow_wasm_go_sdk.Parser.Action.{empty_info, empty_request}
use deepflow_wasm_go_sdk.Abi.Export.{parse_payload, on_http_resp}
use deepflow_wasm_go_sdk.Abi.Outcome.{delivered}
use deepflow_wasm_go_sdk.Abi.Handlers.{Wrote}
use deepflow_wasm_go_sdk.Plugin.{value}
use deepflow_wasm_go_sdk.Plugin.Dns.{DnsPackage, DnsMessage, Question, dns_parser}
use deepflow_wasm_go_sdk.Plugin.Dns.Calls.{IsAddress, First, Replies, parse_payload_dns}
use deepflow_wasm_go_sdk.Plugin.Http.{HttpResponse, Libraries, text, gunzipped}
use deepflow_wasm_go_sdk.Plugin.Http.Rewrite.{rewrite_parser}
use deepflow_wasm_go_sdk.Plugin.Http.Rewrite.Found.{Found}
use deepflow_wasm_go_sdk.Plugin.Http.Rewrite.Status.{Answered}
use deepflow_wasm_go_sdk.Plugin.Http.Rewrite.Whole.{on_http_resp_rewrite}
use deepflow_wasm_go_sdk.Tests.Data.{
  base128, no_skip, dns_ctx, dns_ctx-IsValid, dns_bytes, resp_ctx, resp_bytes, agent,
}
use deepflow_wasm_go_sdk.Tests.Contexts.{resp_read}

-- A question for text in front of one for an address.
abbrev text_question : Question
text_question = record { kind = 16; name = codes "t." }

abbrev address_question : Question
address_question = record { kind = 1; name = codes "a." }

abbrev message : DnsMessage
message = record {
  id = 7;
  response = false;
  questions = text_question ∷ address_question ∷ [];
  answers = [];
}

abbrev dnsmessage : DnsPackage
dnsmessage = record {
  unpack = λ bs. value message;
  type_a = 1;
  type_aaaa = 28;
  type_text = λ kind. codes "TypeA";
  ip_text = λ ip. [];
}

abbrev question_info : L7ProtocolInfo
question_info = record empty_info {
  request_id = some 7;
  req = some (record empty_request { req_type = codes "TypeA"; resource = codes "a." });
}

text_differs : ¬ IsAddress dnsmessage 16
text_differs (inl e) = absurd (omega arith)
text_differs (inr e) = absurd (omega arith)

question_replies : Replies dnsmessage message 0 question_info
question_replies =
    Replies.question address_question refl
      (First.first (text_question ∷ []) [] refl (text_differs, tt) (inl refl)) refl

parse_payload_dns_example :
    parse_payload base128
      (agent (5 ∷ 6 ∷ []))
      (some (dns_parser dnsmessage (agent (5 ∷ 6 ∷ [])) no_skip))
      []
    ≡ some (true, delivered base128 (agent (5 ∷ 6 ∷ [])) (question_info ∷ []) 0 [])
parse_payload_dns_example =
    parse_payload_dns dnsmessage base128 (agent (5 ∷ 6 ∷ [])) no_skip dns_ctx message question_info
      [] (5 ∷ 6 ∷ []) 2 [] [] [] dns_ctx-IsValid refl refl (omega arith) refl (omega arith) refl
      (omega arith) (omega arith) refl question_replies

-- A failure in a body that arrives with code 200.
abbrev failure : HttpResponse
failure = record { status_code = pos 200; header = λ k. []; body = codes "{}"; body_error = none }

abbrev libraries : Libraries
libraries = record {
  read_request = λ bs. value (record { path = bs; query = λ k. []; header = λ k. none });
  read_response = λ bs. value failure;
  gunzip = λ bs. gunzipped bs;
  json_field = λ body key. text (codes "FAIL");
  exists = λ body key. true;
  get_int = λ body keys. pos 0;
  time_text = λ t. [];
}

abbrev responding : HostFunctions (List Bytes)
responding = record (agent resp_bytes) { vm_read_payload = λ h n. (h, 1 ∷ 2 ∷ [], pos 2) }

responding-Wrote :
    Wrote base128 responding responding.vm_read_http_resp_info [] [] dns_bytes resp_bytes
responding-Wrote = record {
  between = [];
  param_read = refl;
  info_read = refl;
  param_some = omega arith;
  info_some = omega arith;
  param_fits = omega arith;
  info_fits = omega arith;
}

on_http_resp_rewrite_example :
    (op_status : Option Bytes) × (answer : L7ProtocolInfo) × Found libraries (codes "{}") op_status
    × Answered (pos 200) (codes "{}") op_status answer
    × (on_http_resp base128 responding (some (rewrite_parser libraries responding no_skip)) []
        ≡ some (true, delivered base128 responding (answer ∷ []) direction_response []))
on_http_resp_rewrite_example =
    on_http_resp_rewrite base128 responding libraries no_skip resp_ctx failure (1 ∷ 2 ∷ []) 2 [] []
      [] dns_bytes resp_bytes responding-Wrote resp_read refl (omega arith) (omega arith) refl
      (omega arith) (omega arith) refl refl
