-- ===== src/Plugin/LlmTest.antt =====
-- example/http_streaming_llm/llm-test.go: OnParsePayload of llm.go without its log of the stream, without the
-- tokens among the metrics and without a status in their response. The rest of the file is not modelled:
-- checker, which returns two of its three results, so that it does not compile; OnCheckPayload, which
-- calls it; and main, since *llmParser does not implement the interface Parser. What has the same text in
-- both files (StreamInfo and what is done to the map) is that of llm.go here.
pub mod Runs
pub mod Quiet
use deepflow_wasm_go_sdk.Prelude.{
  ℕ, ◌+◌, ◌%◌, ◌^◌, not, Option, none, some, [], ◌∷◌, ◌==◌, if◌then◌else◌, length,
}
use deepflow_wasm_go_sdk.Prelude.Text.{codes, bytes_eq}
use deepflow_wasm_go_sdk.Go.Slices.{Bytes}
use deepflow_wasm_go_sdk.Go.Strings.{format_uint}
use deepflow_wasm_go_sdk.Go.Lines.{read_line}
use deepflow_wasm_go_sdk.Host.{ParseCtx, L7ProtocolInfo, direction_request, direction_response}
use deepflow_wasm_go_sdk.Agent.{HostFunctions, Vm, pure, ◌>>=◌, ◌>>◌, or_trap}
use deepflow_wasm_go_sdk.Parser.Action.{
  Action, action_next, empty_info, empty_request, empty_response,
}
use deepflow_wasm_go_sdk.Plugin.{Returned, value, error, one_info, payload_or_abort}
use deepflow_wasm_go_sdk.Plugin.Stateful.{beside, state}
use deepflow_wasm_go_sdk.Plugin.Http.{HttpRequest}
use deepflow_wasm_go_sdk.Plugin.Llm.{
  StreamInfo, Streams, lookup, stream_of, is_status_line, divide, minus64,
}
use deepflow_wasm_go_sdk.Plugin.Llm.Handlers.{set_stream, make_stream, drop_stream, next}

abbrev pub brief_info : StreamInfo → ℕ → L7ProtocolInfo
brief_info stream tpot = record empty_info {
  req = some empty_request;
  resp = some empty_response;
  kv =
      record {
        key = codes "ttft";
        val = format_uint (minus64 stream.resp_first_chunked_time stream.req_time);
      }
      ∷ record { key = codes "tpot"; val = format_uint tpot }
      ∷ [];
}

module _ {H : Type 0} (host : HostFunctions H) where
  -- The end of the stream.
  unfoldable pub finish_stream : ParseCtx → StreamInfo → Vm (H × Streams) (Option Action)
  finish_stream ctx stream = do
    tpot ← or_trap (divide (minus64 ctx.time stream.resp_first_chunked_time) stream.total_token)
    drop_stream host ctx.flow_id
    pure (some (one_info (brief_info stream tpot)))

  -- The third line of a chunk that is not the first.
  abbrev pub third_line : ParseCtx → Option (Bytes × Bytes) → Vm (H × Streams) (Option Action)
  third_line ctx none = do drop_stream host ctx.flow_id; next host
  third_line ctx (some (bs, rest)) = next host

  abbrev pub count_chunk : ParseCtx → StreamInfo → Bytes → Bytes → Vm (H × Streams) (Option Action)
  count_chunk ctx stream bs rest = do
    set_stream host ctx.flow_id
        (record stream { total_token = (stream.total_token + length bs) % 2 ^ 64 })
    third_line ctx (read_line rest)

  abbrev pub start_chunk : ParseCtx → StreamInfo → Bytes → Vm (H × Streams) (Option Action)
  start_chunk ctx stream bs = do
    set_stream host ctx.flow_id
        (record stream { flag = 1; resp_first_chunked_time = ctx.time; total_token = length bs })
    next host

  -- The second line: the bytes of a chunk.
  abbrev pub second_line :
      ParseCtx → StreamInfo → Option (Bytes × Bytes) → Vm (H × Streams) (Option Action)
  second_line ctx stream none = next host
  second_line ctx stream (some (bs, rest)) =
      if stream.flag == 0 then start_chunk ctx stream bs else count_chunk ctx stream bs rest

  -- The first line: a status line, the end of the stream or the length of a chunk.
  abbrev pub first_line :
      ParseCtx → StreamInfo → Option (Bytes × Bytes) → Vm (H × Streams) (Option Action)
  first_line ctx stream none = next host
  first_line ctx stream (some (bs, rest)) =
      if is_status_line bs
      then next host
      else if bytes_eq bs (codes "0")
      then finish_stream ctx stream
      else second_line ctx stream (read_line rest)

  module _ (read_request : Bytes → Returned HttpRequest) where
    abbrev pub answer_request :
        ParseCtx → StreamInfo → Returned HttpRequest → Vm (H × Streams) (Option Action)
    answer_request ctx stream (error e) = next host
    answer_request ctx stream (value req) = do
      set_stream host ctx.flow_id (record stream { req_time = ctx.time })
      pure (
          some (
            one_info (record empty_info {
              req = some (record empty_request { resource = req.path });
              resp = some empty_response;
            })))

    abbrev pub read_stream : ParseCtx → Bytes → Vm (H × Streams) (Option Action)
    read_stream ctx payload = do
      streams ← state
      make_stream host ctx.flow_id (lookup ctx.flow_id streams)
      (if ctx.direction == direction_request
          then answer_request ctx (stream_of ctx.flow_id streams) (read_request payload)
          else if ctx.direction == direction_response
          then first_line ctx (stream_of ctx.flow_id streams) (read_line payload)
          else next host)

    unfoldable pub on_parse_payload : ParseCtx → Vm (H × Streams) (ParseCtx × Option Action)
    on_parse_payload ctx =
        if not (ctx.l7 == 1)
        then pure (ctx, some action_next)
        else payload_or_abort (beside host) ctx (read_stream ctx)
