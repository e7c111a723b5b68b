-- ===== src/Plugin/LlmTest/Quiet.antt =====
-- llm-test.go against llm.go: the same streams, and the same actions but for the metrics.
use deepflow_wasm_go_sdk.Prelude.{ℕ, inl, inr, Bool-cases, Option, none, some, ◌==◌, if◌then◌else◌}
use deepflow_wasm_go_sdk.Prelude.Text.{codes, bytes_eq}
use deepflow_wasm_go_sdk.Go.Slices.{Bytes}
use deepflow_wasm_go_sdk.Go.Lines.{read_line}
use deepflow_wasm_go_sdk.Log.{llm_req_start}
use deepflow_wasm_go_sdk.Host.{ParseCtx, direction_request, direction_response}
use deepflow_wasm_go_sdk.Agent.{HostFunctions, pure, resume, ◌>>=◌, ◌>>◌, or_trap, log}
use deepflow_wasm_go_sdk.Agent.Payload.{get_payload}
use deepflow_wasm_go_sdk.Parser.Action.{Action, action_abort_with_err, read_payload_fail}
use deepflow_wasm_go_sdk.Plugin.{Returned, value, error, one_info, payload_or, with_payload}
use deepflow_wasm_go_sdk.Plugin.Stateful.{beside}
use deepflow_wasm_go_sdk.Plugin.Http.{HttpRequest}
use deepflow_wasm_go_sdk.Plugin.Llm.{
  StreamInfo, Streams, lookup, stream_of, is_status_line, divide, minus64, end_info,
}
use deepflow_wasm_go_sdk.Plugin.Llm.Handlers.{
  set_stream, make_stream, drop_stream, next, on_end, on_third_line, on_second_line, on_first_line,
  on_response, on_request, on_payload,
}
use deepflow_wasm_go_sdk.Plugin.Llm.Handlers
use deepflow_wasm_go_sdk.Plugin.LlmTest
use deepflow_wasm_go_sdk.Plugin.LlmTest.{
  brief_info, finish_stream, third_line, second_line, first_line, answer_request, read_stream,
}
use deepflow_wasm_go_sdk.Plugin.LlmTest.Runs.{
  SameAction, same, metrics, SameAnswer, answer, SameRun, both_panic, both_end, Sim, Sim-pure,
  Sim-if, Sim-log, Sim-set_stream, Sim-drop_stream,
}

module _ {H : Type 0} (host : HostFunctions H) where
  finish_stream-Sim :
      (ctx : ParseCtx) (stream : StreamInfo)
      → Sim (on_end host ctx stream) (finish_stream host ctx stream)
  unfolding on_end finish_stream
  finish_stream-Sim ctx stream =
      step (divide (minus64 ctx.time stream.resp_first_chunked_time) stream.total_token)
    where
      step :
          (o : Option ℕ)
          → Sim
              (or_trap o >>= λ tpot.
                drop_stream host ctx.flow_id >>= λ u. pure (some (one_info (end_info stream tpot))))
              (or_trap o >>= λ tpot. drop_stream host ctx.flow_id >>= λ u.
                pure (some (one_info (brief_info stream tpot))))
      step none = record { at = λ h h' streams. both_panic }
      step (some tpot) = record { at = λ h h' streams. both_end (metrics stream tpot) }

  third_line-Sim :
      (ctx : ParseCtx) (line : Option (Bytes × Bytes))
      → Sim (on_third_line host ctx line) (third_line host ctx line)
  third_line-Sim ctx none =
      Sim-log host _ _ _ (Sim-drop_stream host ctx.flow_id _ _ (Sim-pure host _))
  third_line-Sim ctx (some (bs, rest)) = Sim-log host _ _ _ (Sim-log host _ _ _ (Sim-pure host _))

  second_line-Sim :
      (ctx : ParseCtx) (stream : StreamInfo) (line : Option (Bytes × Bytes))
      → Sim (on_second_line host ctx stream line) (second_line host ctx stream line)
  second_line-Sim ctx stream none = Sim-log host _ _ _ (Sim-pure host _)
  second_line-Sim ctx stream (some (bs, rest)) = Sim-log host _ _ _ (
      Sim-if host (stream.flag == 0) _ _ _ _
        (Sim-set_stream host ctx.flow_id _ _ _ (Sim-pure host _))
        (Sim-set_stream host ctx.flow_id _ _ _
          (Sim-log host _ _ _ (third_line-Sim ctx (read_line rest)))))

  first_line-Sim :
      (ctx : ParseCtx) (stream : StreamInfo) (line : Option (Bytes × Bytes))
      → Sim (on_first_line host ctx stream line) (first_line host ctx stream line)
  first_line-Sim ctx stream none = Sim-log host _ _ _ (Sim-pure host _)
  first_line-Sim ctx stream (some (bs, rest)) =
      Sim-if host (is_status_line bs) _ _ _ _ (Sim-log host _ _ _ (Sim-pure host _)) (
        Sim-log host _ _ _ (
          Sim-if host (bytes_eq bs (codes "0")) _ _ _ _ (finish_stream-Sim ctx stream)
            (second_line-Sim ctx stream (read_line rest))))

  module _ (read_request : Bytes → Returned HttpRequest) where
    answer_request-Sim :
        (ctx : ParseCtx) (stream : StreamInfo) (r : Returned HttpRequest)
        → Sim
            (on_request host read_request ctx stream r)
            (answer_request host read_request ctx stream r)
    answer_request-Sim ctx stream (error e) = Sim-pure host _
    answer_request-Sim ctx stream (value req) =
        Sim-set_stream host ctx.flow_id _ _ _ (Sim-pure host _)

    response-Sim :
        (ctx : ParseCtx) (stream : StreamInfo) (payload : Bytes)
        → Sim (on_response host ctx stream payload) (first_line host ctx stream (read_line payload))
    unfolding on_response
    response-Sim ctx stream payload =
        Sim-log host _ _ _ (first_line-Sim ctx stream (read_line payload))

    -- Behind the reading of the payload.
    body :
        (ctx : ParseCtx) (payload : Bytes) (stream : StreamInfo)
        → Sim
            (if ctx.direction == direction_request
              then (log
                    (beside host)
                    (llm_req_start ctx.dst_ip ctx.dst_port ctx.src_ip ctx.src_port ctx.flow_id)
                  >> on_request host read_request ctx stream (read_request payload))
              else if ctx.direction == direction_response
              then on_response host ctx stream payload
              else next host)
            (if ctx.direction == direction_request
              then answer_request host read_request ctx stream (read_request payload)
              else if ctx.direction == direction_response
              then first_line host ctx stream (read_line payload)
              else next host)
    body ctx payload stream =
        Sim-if host (ctx.direction == direction_request) _ _ _ _
          (Sim-log host _ _ _ (answer_request-Sim ctx stream (read_request payload)))
          (Sim-if host (ctx.direction == direction_response) _ _ _ _
            (response-Sim ctx stream payload) (Sim-pure host _))

    known-Sim :
        (ctx : ParseCtx) (payload : Bytes) (o : Option StreamInfo) (stream : StreamInfo)
        → Sim
            (make_stream host ctx.flow_id o
              >> (if ctx.direction == direction_request
                  then (log
                        (beside host)
                        (llm_req_start ctx.dst_ip ctx.dst_port ctx.src_ip ctx.src_port ctx.flow_id)
                      >> on_request host read_request ctx stream (read_request payload))
                  else if ctx.direction == direction_response
                  then on_response host ctx stream payload
                  else next host))
            (make_stream host ctx.flow_id o
              >> (if ctx.direction == direction_request
                  then answer_request host read_request ctx stream (read_request payload)
                  else if ctx.direction == direction_response
                  then first_line host ctx stream (read_line payload)
                  else next host))
    known-Sim ctx payload none stream =
        Sim-set_stream host ctx.flow_id _ _ _ (body ctx payload stream)
    known-Sim ctx payload (some info) stream = record { at = (body ctx payload stream).at }

    read_stream-Sim :
        (ctx : ParseCtx) (payload : Bytes)
        → Sim (on_payload host read_request ctx payload) (read_stream host read_request ctx payload)
    read_stream-Sim ctx payload = record {
      at = λ h h' streams.
          (known-Sim ctx payload (lookup ctx.flow_id streams) (stream_of ctx.flow_id streams)).at h
            h' streams;
    }

    mapped :
        (ctx : ParseCtx) {r r' : Option (Option Action × (H × Streams))}
        → SameRun SameAction r r'
        → SameRun SameAnswer (resume (λ a. pure (ctx, a)) r) (resume (λ a. pure (ctx, a)) r')
    mapped ctx both_panic = both_panic
    mapped ctx (both_end s) = both_end (answer s)

    payload-SameRun :
        (ctx : ParseCtx) (r : Option ((ParseCtx × Option Bytes) × (H × Streams)))
        → SameRun SameAnswer
            (resume
              (λ (ctx', payload).
                with_payload
                  (beside host)
                  (on_payload host read_request ctx)
                  (some (action_abort_with_err (some read_payload_fail)))
                  payload
                >>= λ a. pure (ctx', a))
              r)
            (resume
              (λ (ctx', payload).
                with_payload
                  (beside host)
                  (read_stream host read_request ctx)
                  (some (action_abort_with_err (some read_payload_fail)))
                  payload
                >>= λ a. pure (ctx', a))
              r)
    payload-SameRun ctx none = both_panic
    payload-SameRun ctx (some ((ctx', none), (h, streams))) = both_end (answer same)
    payload-SameRun ctx (some ((ctx', some payload), (h, streams))) =
        mapped ctx' ((read_stream-Sim ctx payload).at h h streams)

    -- From the same state and on the same context, OnParsePayload of llm-test.go and that of llm.go both
    -- panic, or both leave the same context and the same streams and give the same action, except that
    -- for the end of a stream each gives its own result with the metrics of that stream.
    pub llm_test_alike :
        (ctx : ParseCtx) (x : H × Streams)
        → SameRun SameAnswer
            (Handlers.on_parse_payload host read_request ctx x)
            (LlmTest.on_parse_payload host read_request ctx x)
    unfolding Handlers.on_parse_payload LlmTest.on_parse_payload payload_or
    llm_test_alike ctx x = elim (Bool-cases (ctx.l7 == 1)) [
      | inl e ↦ rw e (payload-SameRun ctx (get_payload (beside host) ctx x))
      | inr e ↦ rw e (both_end (answer same))
    ]
