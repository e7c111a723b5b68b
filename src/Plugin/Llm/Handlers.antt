-- ===== src/Plugin/Llm/Handlers.antt =====
-- example/http_streaming_llm/llm.go: OnParsePayload, and checker.
use deepflow_wasm_go_sdk.Prelude.{
  ℕ, ◌+◌, ◌%◌, ◌^◌, not, Option, none, some, ◌==◌, if◌then◌else◌, length,
}
use deepflow_wasm_go_sdk.Prelude.Text.{codes, bytes_eq}
use deepflow_wasm_go_sdk.Go.Slices.{Bytes}
use deepflow_wasm_go_sdk.Go.Strings.{contains}
use deepflow_wasm_go_sdk.Go.Lines.{read_line}
use deepflow_wasm_go_sdk.Log.{
  llm_check, llm_req_start, llm_resp_start, llm_resp_end, llm_resp_line, llm_resp_chunk, llm_total,
}
use deepflow_wasm_go_sdk.Host.{ParseCtx, direction_request, direction_response}
use deepflow_wasm_go_sdk.Agent.{HostFunctions, Vm, pure, ◌>>=◌, ◌>>◌, or_trap, log}
use deepflow_wasm_go_sdk.Parser.Action.{
  Action, action_next, empty_info, empty_request, empty_response,
}
use deepflow_wasm_go_sdk.Parser.Default.{no_check}
use deepflow_wasm_go_sdk.Parser.Interface.{Check}
use deepflow_wasm_go_sdk.Plugin.{Returned, value, error, checked, one_info, payload_or_abort}
use deepflow_wasm_go_sdk.Plugin.Stateful.{beside, state, set_state}
use deepflow_wasm_go_sdk.Plugin.Http.{HttpRequest}
use deepflow_wasm_go_sdk.Plugin.Llm.{
  StreamInfo, new_stream, Streams, lookup, assign, delete, stream_of, is_status_line, divide,
  minus64, end_info,
}

module _ {H : Type 0} (host : HostFunctions H) where
  abbrev host' : HostFunctions (H × Streams)
  host' = beside host

  abbrev pub set_stream : ℕ → StreamInfo → Vm (H × Streams) (Unit {0})
  set_stream flow info = state >>= λ streams. set_state (assign flow info streams)

  -- if p.httpStream[flowId] == nil
  abbrev pub make_stream : ℕ → Option StreamInfo → Vm (H × Streams) (Unit {0})
  make_stream flow none = set_stream flow new_stream
  make_stream flow (some info) = pure tt

  abbrev pub drop_stream : ℕ → Vm (H × Streams) (Unit {0})
  drop_stream flow = state >>= λ streams. set_state (delete flow streams)

  abbrev pub next : Vm (H × Streams) (Option Action)
  next = pure (some action_next)

  -- The end of the stream.
  unfoldable pub on_end : ParseCtx → StreamInfo → Vm (H × Streams) (Option Action)
  on_end ctx stream = do
    tpot ← or_trap (divide (minus64 ctx.time stream.resp_first_chunked_time) stream.total_token)
    drop_stream ctx.flow_id
    pure (some (one_info (end_info stream tpot)))

  -- The third line of a chunk that is not the first.
  abbrev pub on_third_line : ParseCtx → Option (Bytes × Bytes) → Vm (H × Streams) (Option Action)
  on_third_line ctx none = do log host' (llm_resp_end 3); drop_stream ctx.flow_id; next
  on_third_line ctx (some (bs, rest)) = do
    log host' (llm_resp_line bs)
    log host' (llm_resp_end 4)
    next

  abbrev on_later_chunk : ParseCtx → StreamInfo → Bytes → Bytes → Vm (H × Streams) (Option Action)
  on_later_chunk ctx stream bs rest = do
    set_stream ctx.flow_id
        (record stream { total_token = (stream.total_token + length bs) % 2 ^ 64 })
    log host' (llm_total ((stream.total_token + length bs) % 2 ^ 64))
    on_third_line ctx (read_line rest)

  abbrev on_first_chunk : ParseCtx → StreamInfo → Bytes → Vm (H × Streams) (Option Action)
  on_first_chunk ctx stream bs = do
    set_stream ctx.flow_id
        (record stream { flag = 1; resp_first_chunked_time = ctx.time; total_token = length bs })
    next

  -- The second line: the bytes of a chunk.
  abbrev pub on_second_line :
      ParseCtx → StreamInfo → Option (Bytes × Bytes) → Vm (H × Streams) (Option Action)
  on_second_line ctx stream none = log host' (llm_resp_end 2) >> next
  on_second_line ctx stream (some (bs, rest)) = do
    log host' (llm_resp_chunk ctx.time bs)
    (if stream.flag == 0 then on_first_chunk ctx stream bs else on_later_chunk ctx stream bs rest)

  -- The first line: a status line, the end of the stream or the length of a chunk.
  abbrev pub on_first_line :
      ParseCtx → StreamInfo → Option (Bytes × Bytes) → Vm (H × Streams) (Option Action)
  on_first_line ctx stream none = log host' (llm_resp_end 1) >> next
  on_first_line ctx stream (some (bs, rest)) =
      if is_status_line bs then log host' (llm_resp_end 0) >> next else (do
        log host' (llm_resp_line bs)
        (if bytes_eq bs (codes "0")
            then on_end ctx stream
            else on_second_line ctx stream (read_line rest)))

  unfoldable pub on_response : ParseCtx → StreamInfo → Bytes → Vm (H × Streams) (Option Action)
  on_response ctx stream payload =
      log host' (llm_resp_start ctx.src_ip ctx.src_port ctx.dst_ip ctx.dst_port ctx.flow_id)
      >> on_first_line ctx stream (read_line payload)

  module _ (read_request : Bytes → Returned HttpRequest) where
    abbrev pub on_request :
        ParseCtx → StreamInfo → Returned HttpRequest → Vm (H × Streams) (Option Action)
    on_request ctx stream (error e) = next
    on_request ctx stream (value req) = do
      set_stream ctx.flow_id (record stream { req_time = ctx.time })
      pure (
          some (
            one_info (record empty_info {
              req = some (record empty_request { resource = req.path });
              resp = some empty_response;
            })))

    abbrev pub on_payload : ParseCtx → Bytes → Vm (H × Streams) (Option Action)
    on_payload ctx payload = do
      streams ← state
      make_stream ctx.flow_id (lookup ctx.flow_id streams)
      (if ctx.direction == direction_request
          then (do
            log host' (llm_req_start ctx.dst_ip ctx.dst_port ctx.src_ip ctx.src_port ctx.flow_id)
            on_request ctx (stream_of ctx.flow_id streams) (read_request payload))
          else if ctx.direction == direction_response
          then on_response ctx (stream_of ctx.flow_id streams) payload
          else next)

    unfoldable pub on_parse_payload : ParseCtx → Vm (H × Streams) (ParseCtx × Option Action)
    on_parse_payload ctx =
        if not (ctx.l7 == 1)
        then pure (ctx, some action_next)
        else payload_or_abort host' ctx (on_payload ctx)

    -- checker
    abbrev pub checker : Returned HttpRequest → Vm (H × Streams) Check
    checker (error e) = pure no_check
    checker (value req) =
        if contains req.path (codes "/generate_stream")
        then log host' (llm_check req.path) >> pure (checked 1 (codes "http_stream"))
        else pure no_check
