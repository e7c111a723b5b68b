-- ===== src/Plugin/Llm.antt =====
-- example/http_streaming_llm/llm.go: streams of chunks, measured. The state of the plugin is the map
-- httpStream; a *StreamInfo of it is not shared, so that the map holds the StreamInfo itself. The file
-- does not compile: OnCheckPayload declares two results and returns three, and *llmParser does not
-- implement the interface Parser, so that main cannot set it. OnCheckPayload, main, and a parser made of
-- the methods are therefore not modelled; OnParsePayload and checker, which no error touches, are.
pub mod Handlers
pub mod Chunks
pub mod Streams
pub mod Whole
use deepflow_wasm_go_sdk.Prelude.{
  ℕ, zero, suc, ◌+◌, ◌-◌, ◌/◌, ◌%◌, ◌^◌, Bool, true, false, not, ◌&&◌, ◌||◌, Option, none, some,
  List, [], ◌∷◌, leb, ◌==◌, if◌then◌else◌, length, drop,
}
use deepflow_wasm_go_sdk.Prelude.Int.{pos}
use deepflow_wasm_go_sdk.Prelude.Text.{codes, bytes_eq, has_prefix}
use deepflow_wasm_go_sdk.Go.Slices.{Bytes}
use deepflow_wasm_go_sdk.Go.Strings.{contains, format_uint}
use deepflow_wasm_go_sdk.Go.Lines.{read_line}
use deepflow_wasm_go_sdk.Log.{
  llm_check, llm_req_start, llm_resp_start, llm_resp_end, llm_resp_line, llm_resp_chunk, llm_total,
}
use deepflow_wasm_go_sdk.Host.{
  ParseCtx, KeyVal, L7ProtocolInfo, ebpf_none, direction_request, direction_response,
  resp_status_ok,
}
use deepflow_wasm_go_sdk.Agent.{HostFunctions, Vm, pure, ◌>>=◌, ◌>>◌, or_trap, log}
use deepflow_wasm_go_sdk.Pb.Unmarshal.{Skip}
use deepflow_wasm_go_sdk.Parser.Action.{
  Action, action_next, empty_info, empty_request, empty_response,
}
use deepflow_wasm_go_sdk.Parser.Hooks.{hook_point_payload_parse}
use deepflow_wasm_go_sdk.Parser.Default.{no_check, default_parser}
use deepflow_wasm_go_sdk.Parser.Interface.{Parser, Check}
use deepflow_wasm_go_sdk.Plugin.{
  Returned, value, error, checked, one_info, payload_or, payload_or_abort,
}
use deepflow_wasm_go_sdk.Plugin.Stateful.{beside, state, set_state}
use deepflow_wasm_go_sdk.Plugin.Http.{HttpRequest}

pub record StreamInfo : Type 0 where
  pub req_time : ℕ
  pub resp_first_chunked_time : ℕ
  pub total_token : ℕ
  pub flag : ℕ

abbrev pub new_stream : StreamInfo
new_stream = record { req_time = 0; resp_first_chunked_time = 0; total_token = 0; flag = 0 }

-- A map[uint64]*StreamInfo: what was assigned last stands first.
abbrev pub Streams : Type 0
Streams = List (ℕ × StreamInfo)

unfoldable pub lookup : ℕ → Streams → Option StreamInfo
lookup flow [] = none
lookup flow ((f, info) ∷ streams) =
    let later = lookup flow streams in if f == flow then some info else later

abbrev pub assign : ℕ → StreamInfo → Streams → Streams
assign flow info streams = (flow, info) ∷ streams

unfoldable pub delete : ℕ → Streams → Streams
delete flow [] = []
delete flow ((f, info) ∷ streams) =
    let later = delete flow streams in if f == flow then later else (f, info) ∷ later

-- p.httpStream[flowId], where it is not nil, and a new one otherwise.
abbrev pub or_new : Option StreamInfo → StreamInfo
or_new none = new_stream
or_new (some info) = info

unfoldable pub stream_of : ℕ → Streams → StreamInfo
stream_of flow streams = or_new (lookup flow streams)

abbrev digit : ℕ → Bool
digit b = leb 48 b && leb b 57

abbrev any_of : ℕ → ℕ → ℕ → Bool
any_of a b c = c == a || c == b

-- The first bytes of a line, one test for each.
abbrev starts : List (ℕ → Bool) → Bytes → Bool
starts [] line = true
starts (t ∷ ts) [] = false
starts (t ∷ ts) (b ∷ line) = t b && starts ts line

-- ^HTTP/[1-2]\.[01] \d{3} .*$ on a line
abbrev pub is_status_line : Bytes → Bool
is_status_line line =
    has_prefix line (codes "HTTP/")
    && starts
        (any_of 49 50
          ∷ (λ b. b == 46)
          ∷ any_of 48 49
          ∷ (λ b. b == 32)
          ∷ digit
          ∷ digit
          ∷ digit
          ∷ (λ b. b == 32)
          ∷ [])
        (drop 5 line)

-- Division of uint64: by zero it panics.
unfoldable pub divide : ℕ → ℕ → Option ℕ
divide n zero = none
divide n (suc d) = some (n / suc d)

-- a - b of uint64
abbrev pub minus64 : ℕ → ℕ → ℕ
minus64 a b = (a + (2 ^ 64 - b)) % 2 ^ 64

abbrev pub end_info : StreamInfo → ℕ → L7ProtocolInfo
end_info stream tpot = record empty_info {
  req = some empty_request;
  resp = some (record empty_response { status = some resp_status_ok; code = some (pos 200) });
  kv =
      record {
        key = codes "ttft";
        val = format_uint (minus64 stream.resp_first_chunked_time stream.req_time);
      }
      ∷ record { key = codes "tpot"; val = format_uint tpot }
      ∷ record { key = codes "tokens"; val = format_uint stream.total_token }
      ∷ [];
}
