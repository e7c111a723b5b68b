-- ===== src/Plugin/Dns.antt =====
-- example/dns/dns.go. The package dnsmessage, which unpacks a message, is a parameter, with the text
-- that net.IP and dnsmessage.Type have.
pub mod Calls
use deepflow_wasm_go_sdk.Prelude.{
  ℕ, Bool, not, ◌||◌, Option, none, some, List, [], ◌∷◌, ◌==◌, if◌then◌else◌,
}
use deepflow_wasm_go_sdk.Prelude.Text.{codes}
use deepflow_wasm_go_sdk.Go.Slices.{Bytes}
use deepflow_wasm_go_sdk.Log.{dns_get_payload_fail, dns_no_question, dns_no_answer}
use deepflow_wasm_go_sdk.Host.{
  ParseCtx, Request, Response, L7ProtocolInfo, udp, direction_request, direction_response,
  resp_status_ok,
}
use deepflow_wasm_go_sdk.Agent.{HostFunctions, Vm, pure, ◌>>=◌, ◌>>◌, log}
use deepflow_wasm_go_sdk.Agent.Payload.{get_payload}
use deepflow_wasm_go_sdk.Pb.Unmarshal.{Skip}
use deepflow_wasm_go_sdk.Parser.Action.{
  Action, action_next, action_abort, empty_info, empty_request, empty_response,
}
use deepflow_wasm_go_sdk.Parser.Hooks.{hook_point_payload_parse}
use deepflow_wasm_go_sdk.Parser.Default.{no_check, default_parser}
use deepflow_wasm_go_sdk.Parser.Interface.{Parser, Check}
use deepflow_wasm_go_sdk.Plugin.{
  Returned, value, error, checked, one_info, payload_or_abort, or_abort,
}

pub record Question : Type 0 where
  pub kind : ℕ
  pub name : Bytes

-- The body of a resource: an *AAAAResource, an *AResource or another.
pub data Body : Type 0 where
  aaaa_resource a_resource : Bytes → Body
  other_resource : Body

pub record Answer : Type 0 where
  pub kind : ℕ
  pub body : Body

pub record DnsMessage : Type 0 where
  pub id : ℕ
  pub response : Bool
  pub questions : List Question
  pub answers : List Answer

-- (*Message).Unpack, TypeA, TypeAAAA, Type.String and net.IP.String, where `none` is a nil IP.
pub record DnsPackage : Type 0 where
  pub unpack : Bytes → Returned DnsMessage
  pub type_a : ℕ
  pub type_aaaa : ℕ
  pub type_text : ℕ → Bytes
  pub ip_text : Option Bytes → Bytes

abbrev pub wasm_dns_protocol : ℕ
wasm_dns_protocol = 1

module _ (dnsmessage : DnsPackage) where
  open dnsmessage use {unpack, type_a, type_aaaa, type_text, ip_text}

  abbrev is_address : ℕ → Bool
  is_address kind = kind == type_a || kind == type_aaaa

  -- The request of the first question for an A or AAAA record.
  unfoldable pub find_request : List Question → Option Request
  find_request [] = none
  find_request (v ∷ vs) =
      let later = find_request vs in
      if is_address v.kind
      then some (record empty_request { req_type = type_text v.kind; resource = v.name })
      else later

  abbrev ip_of : Body → Option Bytes
  ip_of (aaaa_resource ip) = some ip
  ip_of (a_resource ip) = some ip
  ip_of other_resource = none

  -- The response of the first answer that is an A or AAAA record.
  unfoldable pub find_response : List Answer → Option Response
  find_response [] = none
  find_response (v ∷ vs) =
      let later = find_response vs in
      if is_address v.kind
      then some
          (record empty_response { status = some resp_status_ok; result = ip_text (ip_of v.body) })
      else later

  abbrev check_of : Returned DnsMessage → Check
  check_of (error e) = no_check
  check_of (value dns) = if dns.response then no_check else checked wasm_dns_protocol (codes "dns")

  abbrev request_info : ℕ → Request → L7ProtocolInfo
  request_info id req = record empty_info { request_id = some id; req = some req }

  abbrev response_info : ℕ → Response → L7ProtocolInfo
  response_info id resp = record empty_info { request_id = some id; resp = some resp }

  module _ {H : Type 0} (host : HostFunctions H) where
    abbrev check_payload : Option Bytes → Vm H Check
    check_payload none = log host dns_get_payload_fail >> pure no_check
    check_payload (some payload) = pure (check_of (unpack payload))

    unfoldable pub on_check_payload : ParseCtx → Vm H (ParseCtx × Check)
    on_check_payload ctx =
        if not (ctx.l4 == udp) || not (ctx.dst_port == 53) then pure (ctx, no_check) else (do
          (ctx', payload) ← get_payload host ctx
          check ← check_payload payload
          pure (ctx', check))

    abbrev request_action : ParseCtx → ℕ → Option Request → Vm H (Option Action)
    request_action ctx id none =
        log host (dns_no_question ctx.src_ip ctx.src_port ctx.dst_ip ctx.dst_port)
        >> pure (some action_abort)
    request_action ctx id (some req) = pure (some (one_info (request_info id req)))

    abbrev response_action : ParseCtx → ℕ → Option Response → Vm H (Option Action)
    response_action ctx id none =
        log host (dns_no_answer ctx.src_ip ctx.src_port ctx.dst_ip ctx.dst_port)
        >> pure (some action_abort)
    response_action ctx id (some resp) = pure (some (one_info (response_info id resp)))

    -- switch ctx.Direction: another direction panics.
    unfoldable pub answer_message : ParseCtx → DnsMessage → Vm H (Option Action)
    answer_message ctx dns =
        if ctx.direction == direction_request
        then request_action ctx dns.id (find_request dns.questions)
        else if ctx.direction == direction_response
        then response_action ctx dns.id (find_response dns.answers)
        else (λ h. none)

    unfoldable pub on_parse_payload : ParseCtx → Vm H (ParseCtx × Option Action)
    on_parse_payload ctx =
        if not (ctx.l4 == udp) || not (ctx.l7 == wasm_dns_protocol)
        then pure (ctx, some action_next)
        else payload_or_abort host ctx (λ payload. or_abort (answer_message ctx) (unpack payload))

    abbrev pub dns_parser : Skip → Parser H
    dns_parser s = record (default_parser s none) {
      on_http_req = λ ctx. pure (ctx, some action_next);
      on_http_resp = λ ctx. pure (ctx, some action_next);
      on_check_payload = on_check_payload;
      on_parse_payload = on_parse_payload;
      hook_in = pure (hook_point_payload_parse ∷ []);
    }
