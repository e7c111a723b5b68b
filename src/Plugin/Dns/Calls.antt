-- ===== src/Plugin/Dns/Calls.antt =====
-- example/dns/dns.go: whole calls of parse_payload with the plugin.
use deepflow_wasm_go_sdk.Prelude.{
  ℕ, ◌≡◌, ◌≢◌, ◌≤◌, ◌⊎◌, inl, inr, refl, arith, true, false, ◌||◌, some, none, List, [], ◌∷◌, ◌++◌,
  ◌==◌, ==_iff, All, Bool-cases, length, take,
}
use deepflow_wasm_go_sdk.Prelude.Int.{pos}
use deepflow_wasm_go_sdk.Go.Slices.{Bytes}
use deepflow_wasm_go_sdk.Host.{
  ParseCtx, L7ProtocolInfo, udp, direction_request, direction_response, resp_status_ok,
}
use deepflow_wasm_go_sdk.Agent.{HostFunctions}
use deepflow_wasm_go_sdk.Agent.Payload.{get_payload, get_payload_reads}
use deepflow_wasm_go_sdk.Serde.ParseCtx.Format.{IsValid, format}
use deepflow_wasm_go_sdk.Pb.Varint.{Varint}
use deepflow_wasm_go_sdk.Pb.Unmarshal.{Skip}
use deepflow_wasm_go_sdk.Parser.Action.{
  empty_info, empty_request, empty_response, parse_action_abort_with_l7_info,
}
use deepflow_wasm_go_sdk.Abi.Export.{parse_payload, parse_param_buf_size}
use deepflow_wasm_go_sdk.Abi.Outcome.{delivered, parse_payload_lem}
use deepflow_wasm_go_sdk.Plugin.{one_info, value, payload_or_lem}
use deepflow_wasm_go_sdk.Plugin.Dns.{
  Question, Answer, Body, aaaa_resource, a_resource, other_resource, DnsMessage, DnsPackage,
  wasm_dns_protocol, ip_of, find_request, find_response, answer_message, on_parse_payload,
  dns_parser,
}

module _ (dnsmessage : DnsPackage) where
  open dnsmessage use {unpack, type_a, type_aaaa, type_text, ip_text}

  -- A or AAAA
  abbrev pub IsAddress : ℕ → Type 0
  IsAddress kind = (kind ≡ type_a) ⊎ (kind ≡ type_aaaa)

  -- `x` is the first of a list whose kind is A or AAAA.
  pub data First {X : Type 0} (kind : X → ℕ) (xs : List X) (x : X) : Type 0 where
    first :
        (before after : List X)
        → xs ≡ before ++ (x ∷ after)
        → All (λ y. ¬ IsAddress (kind y)) before
        → IsAddress (kind x)
        → First kind xs x

  -- The text of the address that the body of a resource holds.
  abbrev pub address_text : Body → Bytes
  address_text (aaaa_resource ip) = ip_text (some ip)
  address_text (a_resource ip) = ip_text (some ip)
  address_text other_resource = ip_text none

  -- The result of a message in a direction: of a request its first question for an address, of a
  -- response its first answer with one, with the id of the message.
  pub data Replies (dns : DnsMessage) (direction : ℕ) (info : L7ProtocolInfo) : Type 0 where
    question :
        (q : Question)
        → direction ≡ direction_request
        → First (λ (x : Question). x.kind) dns.questions q
        → info ≡ record empty_info {
          request_id = some dns.id;
          req = some (record empty_request { req_type = type_text q.kind; resource = q.name });
        }
        → Replies dns direction info
    answer :
        (a : Answer)
        → direction ≡ direction_response
        → First (λ (x : Answer). x.kind) dns.answers a
        → info ≡ record empty_info {
          request_id = some dns.id;
          resp = some (record empty_response {
            status = some resp_status_ok;
            result = address_text a.body;
          });
        }
        → Replies dns direction info

  address_test : (kind : ℕ) → IsAddress kind → ((kind == type_a) || (kind == type_aaaa)) ≡ true
  address_test kind h = ground arith

  other_test : (kind : ℕ) → ¬ IsAddress kind → ((kind == type_a) || (kind == type_aaaa)) ≡ false
  other_test kind h = elim (Bool-cases (kind == type_a)) [
    | inl e ↦ absurd (h (inl ((==_iff kind type_a).0 e)))
    | inr e ↦ elim (Bool-cases (kind == type_aaaa)) [
      | inl f ↦ absurd (h (inr ((==_iff kind type_aaaa).0 f)))
      | inr f ↦ rw (e, f) refl
    ]
  ]

  find_request-first :
      (before after : List Question) (q : Question)
      → All (λ (y : Question). ¬ IsAddress y.kind) before
      → IsAddress q.kind
      → find_request dnsmessage (before ++ (q ∷ after))
        ≡ some (record empty_request { req_type = type_text q.kind; resource = q.name })
  unfolding find_request
  find_request-first [] after q none_before is = rw (address_test q.kind is) refl
  find_request-first (y ∷ before) after q (not_y, none_before) is =
      rw (other_test y.kind not_y) (find_request-first before after q none_before is)

  ip_of-address_text : (body : Body) → ip_text (ip_of dnsmessage body) ≡ address_text body
  ip_of-address_text (aaaa_resource ip) = refl
  ip_of-address_text (a_resource ip) = refl
  ip_of-address_text other_resource = refl

  find_response-first :
      (before after : List Answer) (a : Answer)
      → All (λ (y : Answer). ¬ IsAddress y.kind) before
      → IsAddress a.kind
      → find_response dnsmessage (before ++ (a ∷ after))
        ≡ some
            (record empty_response { status = some resp_status_ok; result = address_text a.body })
  unfolding find_response
  find_response-first [] after a none_before is =
      rw (address_test a.kind is, ip_of-address_text a.body) refl
  find_response-first (y ∷ before) after a (not_y, none_before) is =
      rw (other_test y.kind not_y) (find_response-first before after a none_before is)

  module _ {H : Type 0} (v : Varint) (host : HostFunctions H) where
    open host use {vm_read_ctx_base, vm_read_payload}

    answer_message_lem :
        (ctx : ParseCtx) (dns : DnsMessage) (info : L7ProtocolInfo) (h : H)
        → Replies dns ctx.direction info
        → answer_message dnsmessage host ctx dns h ≡ some (some (one_info info), h)
    unfolding answer_message
    answer_message_lem ctx dns info h (question q d (first before after split none_before is) e) =
        let request : (ctx.direction == direction_request) ≡ true = ground arith in
        rw (request, split, find_request-first before after q none_before is, e) refl
    answer_message_lem ctx dns info h (answer a d (first before after split none_before is) e) =
        let no_request : (ctx.direction == direction_request) ≡ false = ground arith in
        let response : (ctx.direction == direction_response) ≡ true = ground arith in
        rw (no_request, response, split, find_response-first before after a none_before is, e) refl

    on_parse_payload_replies :
        (ctx ctx' : ParseCtx) (dns : DnsMessage) (info : L7ProtocolInfo) (payload : Bytes)
        (h h' : H)
        → get_payload host ctx h ≡ some ((ctx', some payload), h')
        → ctx.l4 ≡ udp
        → ctx.l7 ≡ wasm_dns_protocol
        → unpack payload ≡ value dns
        → Replies dns ctx.direction info
        → on_parse_payload dnsmessage host ctx h ≡ some ((ctx', some (one_info info)), h')
    unfolding on_parse_payload
    on_parse_payload_replies ctx ctx' dns info payload h h' p l4 l7 u r =
        let over_udp : (ctx.l4 == udp) ≡ true = ground arith in
        let number : (ctx.l7 == wasm_dns_protocol) ≡ true = ground arith in
        rw (
          over_udp,
          number,
          payload_or_lem host ctx ctx' _ _ payload h h' p,
          u,
          answer_message_lem ctx dns info h' r,
        )

    -- parse_payload with the DNS plugin, where the agent wrote the format of a valid context of UDP and
    -- of the plugin's protocol, which fits the buffer, and, for the payload, at most as many bytes as
    -- the context says, at least those that it returned, which unpack to a message: if the message has a
    -- question for an address, in a request, or an answer with one, in a response, it returns true, and
    -- the agent gets the result of the first such question or answer, with the id of the message.
    pub parse_payload_dns :
        (s : Skip) (ctx : ParseCtx) (dns : DnsMessage) (info : L7ProtocolInfo)
        (rest written : Bytes) (n : ℕ) (h h1 h2 : H)
        → IsValid ctx
        → ctx.l4 ≡ udp
        → ctx.l7 ≡ wasm_dns_protocol
        → ctx.buf_size ≢ 0
        → vm_read_ctx_base h parse_param_buf_size
          ≡ (h1, format ctx rest, pos (length (format ctx rest)))
        → length (format ctx rest) ≤ parse_param_buf_size
        → vm_read_payload h1 ctx.buf_size ≡ (h2, written, pos n)
        → n ≤ length written
        → n ≤ ctx.buf_size
        → unpack (take n written) ≡ value dns
        → Replies dns ctx.direction info
        → parse_payload v host (some (dns_parser dnsmessage host s)) h
          ≡ some (true, delivered v host (info ∷ []) ctx.direction h2)
    unfolding parse_action_abort_with_l7_info
    parse_payload_dns s ctx dns info rest written n h h1 h2 valid l4 l7 nz r fits rp long enough u
          e =
        let payload : Bytes = take n written in
        let ctx' : ParseCtx = record ctx { payload = some payload } in
        let got =
          get_payload_reads host ctx h1 h2 written n valid.payload nz valid.buf_size rp long
            enough in
        parse_payload_lem v host (dns_parser dnsmessage host s) ctx ctx' rest (one_info info)
          (info ∷ []) h h1 h2 valid r fits
          (on_parse_payload_replies ctx ctx' dns info payload h1 h2 got l4 l7 u e) refl refl
