-- ===== src/Tests/Streams.antt =====
-- The plugins that keep a state, on messages of the tests.
use deepflow_wasm_go_sdk.Prelude.{
  ℕ, ◌≡◌, ◌≢◌, refl, true, false, some, none, List, [], ◌∷◌, ◌++◌, ◌+◌, ◌%◌, ◌^◌, arith, ◌/◌,
}
use deepflow_wasm_go_sdk.Prelude.Text.{codes}
use deepflow_wasm_go_sdk.Go.Slices.{Bytes}
use deepflow_wasm_go_sdk.Host.{ParseCtx}
use deepflow_wasm_go_sdk.Parser.Action.{read_payload_fail}
use deepflow_wasm_go_sdk.Agent.{◌>>=◌}
use deepflow_wasm_go_sdk.Pb.Messages.{NatsMessage}
use deepflow_wasm_go_sdk.Plugin.{Returned, error, one_info}
use deepflow_wasm_go_sdk.Plugin.Http.{HttpRequest}
use deepflow_wasm_go_sdk.Plugin.Nrpc.{Kv, Json, call_info}
use deepflow_wasm_go_sdk.Plugin.Nrpc.History.{asked, answers, run_all, on_nats_message-refines}
use deepflow_wasm_go_sdk.Plugin.Llm.{StreamInfo, Streams, new_stream, lookup, minus64, end_info}
use deepflow_wasm_go_sdk.Plugin.Llm.Handlers.{on_parse_payload}
use deepflow_wasm_go_sdk.Plugin.Llm.Chunks.{IsLine, IsSize, chunk, last_chunk, started}
use deepflow_wasm_go_sdk.Plugin.Llm.Streams.{IsPart, end_after_chunk_panics}
use deepflow_wasm_go_sdk.Plugin.Llm.Handlers
use deepflow_wasm_go_sdk.Plugin.LlmTest
use deepflow_wasm_go_sdk.Plugin.LlmTest.Runs.{SameRun, SameAnswer}
use deepflow_wasm_go_sdk.Plugin.LlmTest.Quiet.{llm_test_alike}
use deepflow_wasm_go_sdk.Plugin.Llm.Whole.{
  Piece, IsPiece, total_length, run_pieces, stream_measured,
}
use deepflow_wasm_go_sdk.Tests.Data.{dns_ctx, agent, nats}

-- The JSON is the payload alone.
abbrev json : Json
json = record { protobuf_to_json = λ service method is_request payload. payload }

abbrev request : NatsMessage
request = record { subject = codes "a.b"; reply_to = codes "r"; payload = []; unknown_fields = [] }

abbrev reply : NatsMessage
reply = record { subject = codes "r"; reply_to = []; payload = 5 ∷ []; unknown_fields = [] }

on_nats_message-refines_example :
    (kv : Kv) × (run_all json {H = ℕ} (request ∷ nats ∷ reply ∷ []) (0, [])
      ≡ some (answers json [] (request ∷ nats ∷ reply ∷ []), (0, kv)))
on_nats_message-refines_example = on_nats_message-refines json (request ∷ nats ∷ reply ∷ []) 0

-- What the specification gives for a request and its reply.
answers_reply :
    answers json [] (request ∷ reply ∷ [])
    ≡ some (one_info (call_info json (codes "a.b") (codes "r") true []))
      ∷ some (one_info (call_info json (codes "a.b") (codes "r") false (5 ∷ [])))
      ∷ []
unfolding answers asked
answers_reply = refl

abbrev no_request : Bytes → Returned HttpRequest
no_request bs = error read_payload_fail

abbrev size : Bytes
size = codes "3"

abbrev bytes : Bytes
bytes = codes "abc"

bytes-IsLine : IsLine bytes
bytes-IsLine = record { short = omega arith; no_line_feed = (refl, (refl, (refl, tt))) }

size_differs : size ≢ codes "0"
size_differs e = ground arith

size-IsSize : IsSize size
size-IsSize = record {
  line = record { short = omega arith; no_line_feed = (refl, tt) };
  no_status = refl;
  no_end = size_differs;
}

abbrev part : ℕ → Bytes → ParseCtx
part time payload = record dns_ctx {
  time = time;
  direction = 1;
  flow_id = 8;
  payload = some payload;
}

chunk-IsPart : IsPart 8 (chunk size bytes) (part 30 (chunk size bytes))
chunk-IsPart = record { read = refl; number = refl; response = refl; same_flow = refl }

end-IsPart : IsPart 8 (last_chunk []) (part 90 (last_chunk []))
end-IsPart = record { read = refl; number = refl; response = refl; same_flow = refl }

abbrev requested : StreamInfo
requested = record new_stream { req_time = 10 }

abbrev running : StreamInfo
running = record { req_time = 10; resp_first_chunked_time = 20; total_token = 7; flag = 1 }

requested_known : lookup 8 ((8, requested) ∷ []) ≡ some requested
unfolding lookup
requested_known = refl

running_known : lookup 8 ((8, running) ∷ []) ≡ some running
unfolding lookup
running_known = refl

end_after_chunk_panics_example :
    (on_parse_payload (agent []) no_request (part 30 (chunk size bytes)) >>= λ _.
    on_parse_payload (agent []) no_request (part 90 (last_chunk [])))
      ([], (8, running) ∷ [])
    ≡ none
end_after_chunk_panics_example =
    end_after_chunk_panics (agent []) no_request 8 (part 30 (chunk size bytes))
      (part 90 (last_chunk [])) running size bytes [] [] ((8, running) ∷ []) size-IsSize
      bytes-IsLine chunk-IsPart end-IsPart running_known (omega arith)

-- A second chunk, with another line behind it.
abbrev second : Piece
second = record {
  ctx = part 40 (size ++ (13 ∷ 10 ∷ (bytes ++ (13 ∷ 10 ∷ 13 ∷ 10 ∷ []))));
  size = size;
  bytes = bytes;
  next = 13;
  more = 10 ∷ [];
}

second-IsPiece : IsPiece 8 second
second-IsPiece = record {
  size_fine = size-IsSize;
  bytes_fine = bytes-IsLine;
  part = record { read = refl; number = refl; response = refl; same_flow = refl };
}

lengths : (3 + total_length (second ∷ [])) % 2 ^ 64 ≡ 6
unfolding total_length
lengths = refl

stream_measured_example :
    (h' : List Bytes) × (streams' : Streams) × (lookup 8 streams' ≡ none)
    × ((on_parse_payload (agent []) no_request (part 30 (chunk size bytes)) >>= λ a.
            run_pieces (agent []) no_request (second ∷ []) >>= λ b.
            on_parse_payload (agent []) no_request (part 90 (last_chunk [])))
          ([], (8, requested) ∷ [])
        ≡ some (
          (
            part 90 (last_chunk []),
            some (
                one_info (
                  end_info
                    (record (started requested (part 30 (chunk size bytes)) bytes) {
                      total_token = 6;
                    })
                    (minus64 90 30 / 6))),
          ),
          (h', streams'),
        ))
stream_measured_example =
    stream_measured (agent []) no_request 8 (part 30 (chunk size bytes)) (part 90 (last_chunk []))
      requested size bytes (second ∷ []) [] 5 [] ((8, requested) ∷ []) size-IsSize bytes-IsLine
      chunk-IsPart (second-IsPiece, tt) end-IsPart requested_known refl lengths

llm_test_alike_example :
    SameRun SameAnswer
      (Handlers.on_parse_payload
        (agent [])
        no_request
        (part 90 (last_chunk []))
        ([], (8, running) ∷ []))
      (LlmTest.on_parse_payload
        (agent [])
        no_request
        (part 90 (last_chunk []))
        ([], (8, running) ∷ []))
llm_test_alike_example =
    llm_test_alike (agent []) no_request (part 90 (last_chunk [])) ([], (8, running) ∷ [])
