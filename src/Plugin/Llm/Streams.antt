-- ===== src/Plugin/Llm/Streams.antt =====
-- What the chunks of a stream and its end come to.
use deepflow_wasm_go_sdk.Prelude.{
  ℕ, ◌/◌, ◌≡◌, ◌≢◌, refl, true, false, Bool-cases, inl, inr, Option, none, some, [], ◌∷◌, ◌==◌,
  length, arith, ap, sym, ◌∙◌,
}
use deepflow_wasm_go_sdk.Go.Slices.{Bytes}
use deepflow_wasm_go_sdk.Host.{ParseCtx, direction_request, direction_response}
use deepflow_wasm_go_sdk.Agent.{HostFunctions, Vm, pure, resume, ◌>>=◌}
use deepflow_wasm_go_sdk.Parser.Action.{Action}
use deepflow_wasm_go_sdk.Plugin.{Returned, one_info, payload_or_kept}
use deepflow_wasm_go_sdk.Plugin.Stateful.{beside}
use deepflow_wasm_go_sdk.Plugin.Http.{HttpRequest}
use deepflow_wasm_go_sdk.Plugin.Llm.{
  StreamInfo, Streams, new_stream, lookup, assign, delete, stream_of, minus64, end_info,
}
use deepflow_wasm_go_sdk.Plugin.Llm.Handlers.{on_response, on_parse_payload}
use deepflow_wasm_go_sdk.Plugin.Llm.Chunks.{
  IsLine, IsSize, chunk, last_chunk, logged, start_messages, end_messages, started, total,
  first_chunk, later_chunk, on_end_new, on_end_known,
}

pub lookup-assign :
    (flow : ℕ) (stream : StreamInfo) (streams : Streams)
    → lookup flow (assign flow stream streams) ≡ some stream
unfolding lookup
lookup-assign flow stream streams = ground arith

pub lookup-delete : (flow : ℕ) (streams : Streams) → lookup flow (delete flow streams) ≡ none
unfolding lookup delete
lookup-delete flow [] = refl
lookup-delete flow ((f, info) ∷ streams) = elim (Bool-cases (f == flow)) [
  | inl e ↦ rw (e, lookup-delete flow streams)
  | inr e ↦ rw (e, e, lookup-delete flow streams)
]

-- A response of the flow, whose payload has been read.
pub record IsPart (flow : ℕ) (payload : Bytes) (ctx : ParseCtx) : Type 0 where
  pub read : ctx.payload ≡ some payload
  pub number : ctx.l7 ≡ 1
  pub response : ctx.direction ≡ direction_response
  pub same_flow : ctx.flow_id ≡ flow

module _ {H : Type 0} (host : HostFunctions H) (read_request : Bytes → Returned HttpRequest) where
  abbrev parse : ParseCtx → Vm (H × Streams) (ParseCtx × Option Action)
  parse = on_parse_payload host read_request

  pub part_known :
      (flow : ℕ) (payload : Bytes) (ctx : ParseCtx) (stream : StreamInfo) (h : H)
      (streams : Streams)
      → IsPart flow payload ctx
      → lookup flow streams ≡ some stream
      → parse ctx (h, streams)
        ≡ resume (λ a. pure (ctx, a)) (on_response host ctx stream payload (h, streams))
  unfolding on_parse_payload stream_of
  part_known flow payload ctx stream h streams part known =
      let number : (ctx.l7 == 1) ≡ true = ground (arith, part.number) in
      let not_request : (ctx.direction == direction_request) ≡ false =
        ground (arith, part.response) in
      let response : (ctx.direction == direction_response) ≡ true = ground (arith, part.response) in
      let found : lookup ctx.flow_id streams ≡ some stream =
        ap (λ f. lookup f streams) part.same_flow ∙ known in
      rw (
        number,
        payload_or_kept (beside host) ctx _ _ payload (h, streams) part.read,
        found,
        not_request,
        response,
      )

  part_unknown :
      (flow : ℕ) (payload : Bytes) (ctx : ParseCtx) (h : H) (streams : Streams)
      → IsPart flow payload ctx
      → lookup flow streams ≡ none
      → parse ctx (h, streams)
        ≡ resume
            (λ a. pure (ctx, a))
            (on_response host ctx new_stream payload (h, assign ctx.flow_id new_stream streams))
  unfolding on_parse_payload stream_of
  part_unknown flow payload ctx h streams part unknown =
      let number : (ctx.l7 == 1) ≡ true = ground (arith, part.number) in
      let not_request : (ctx.direction == direction_request) ≡ false =
        ground (arith, part.response) in
      let response : (ctx.direction == direction_response) ≡ true = ground (arith, part.response) in
      let found : lookup ctx.flow_id streams ≡ none =
        ap (λ f. lookup f streams) part.same_flow ∙ unknown in
      rw (
        number,
        payload_or_kept (beside host) ctx _ _ payload (h, streams) part.read,
        found,
        not_request,
        response,
      )

  -- A chunk of a stream whose first chunk has come, in a payload that holds no more, makes the plugin
  -- forget the stream, so that the end of the stream panics: it divides by the tokens of a new one. The
  -- length and the bytes of the chunk are lines of less than 4095 bytes, and the length is neither a
  -- status line nor 0.
  pub end_after_chunk_panics :
      (flow : ℕ) (ctx end_ctx : ParseCtx) (stream : StreamInfo) (size bytes rest : Bytes) (h : H)
      (streams : Streams)
      → IsSize size
      → IsLine bytes
      → IsPart flow (chunk size bytes) ctx
      → IsPart flow (last_chunk rest) end_ctx
      → lookup flow streams ≡ some stream
      → stream.flag ≢ 0
      → (parse ctx >>= λ _. parse end_ctx) (h, streams) ≡ none
  end_after_chunk_panics flow ctx end_ctx stream size bytes rest h streams s b part end known f =
      let later = later_chunk host ctx stream size bytes h streams s b f in
      let gone : lookup flow (
            delete ctx.flow_id
              (assign ctx.flow_id (record stream { total_token = total stream bytes }) streams))
          ≡ none =
        ap
          (λ f. lookup f (
            delete ctx.flow_id
              (assign ctx.flow_id (record stream { total_token = total stream bytes }) streams)))
          (sym part.same_flow)
        ∙ lookup-delete ctx.flow_id
            (assign ctx.flow_id (record stream { total_token = total stream bytes }) streams) in
      rw (
        part_known flow (chunk size bytes) ctx stream h streams part known,
        later,
        part_unknown flow (last_chunk rest) end_ctx _ _ end gone,
        on_end_new host end_ctx new_stream rest _ refl,
      )

  -- The first chunk of a stream, which is not empty, and then its end: the end is answered with the
  -- metrics of the stream, its tokens being the length of the chunk, and the stream is forgotten. The
  -- length and the bytes of the chunk are lines of less than 4095 bytes, and the length is neither a
  -- status line nor 0.
  pub one_chunk_measured :
      (flow : ℕ) (ctx end_ctx : ParseCtx) (stream : StreamInfo) (size : Bytes) (b : ℕ)
      (bs rest : Bytes) (h : H) (streams : Streams)
      → IsSize size
      → IsLine (b ∷ bs)
      → IsPart flow (chunk size (b ∷ bs)) ctx
      → IsPart flow (last_chunk rest) end_ctx
      → lookup flow streams ≡ some stream
      → stream.flag ≡ 0
      → (streams' : Streams) × (lookup flow streams' ≡ none)
        × ((parse ctx >>= λ _. parse end_ctx) (h, streams)
            ≡ some (
              (
                end_ctx,
                some (
                    one_info (
                      end_info
                        (started stream ctx (b ∷ bs))
                        (minus64 end_ctx.time ctx.time / length (b ∷ bs)))),
              ),
              (
                logged host
                    (logged host h (start_messages ctx size (b ∷ bs)))
                    (end_messages end_ctx),
                streams',
              ),
            ))
  one_chunk_measured flow ctx end_ctx stream size b bs rest h streams s i part end known f =
      let streams2 : Streams = assign ctx.flow_id (started stream ctx (b ∷ bs)) streams in
      let known2 : lookup flow streams2 ≡ some (started stream ctx (b ∷ bs)) =
        ap (λ f. lookup f streams2) (sym part.same_flow)
        ∙ lookup-assign ctx.flow_id (started stream ctx (b ∷ bs)) streams in
      (
        delete end_ctx.flow_id streams2,
        ap (λ f. lookup f (delete end_ctx.flow_id streams2)) (sym end.same_flow)
            ∙ lookup-delete end_ctx.flow_id streams2,
        rw (
          part_known flow (chunk size (b ∷ bs)) ctx stream h streams part known,
          first_chunk host ctx stream size (b ∷ bs) h streams s i f,
          part_known flow (last_chunk rest) end_ctx (started stream ctx (b ∷ bs)) _ streams2 end
              known2,
          on_end_known host end_ctx (started stream ctx (b ∷ bs)) (length bs) rest _ streams2 refl,
        ),
      )
