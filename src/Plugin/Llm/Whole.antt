-- ===== src/Plugin/Llm/Whole.antt =====
-- A whole stream: its first chunk, the later chunks, and its end.
use deepflow_wasm_go_sdk.Prelude.{
  ℕ, suc, ◌+◌, ◌<◌, ◌%◌, ◌^◌, ◌/◌, ◌≡◌, ◌≢◌, refl, sym, ap, ◌∙◌, false, Option, none, some, List,
  [], ◌∷◌, ◌++◌, ◌==◌, All, length, arith,
}
use deepflow_wasm_go_sdk.Prelude.Text.{codes}
use deepflow_wasm_go_sdk.Go.Slices.{Bytes}
use deepflow_wasm_go_sdk.Go.Lines.{read_line}
use deepflow_wasm_go_sdk.Log.{Message, llm_total, llm_resp_line, llm_resp_end}
use deepflow_wasm_go_sdk.Host.{ParseCtx}
use deepflow_wasm_go_sdk.Agent.{HostFunctions, Vm, pure, ◌>>=◌, log}
use deepflow_wasm_go_sdk.Parser.Action.{Action, action_next}
use deepflow_wasm_go_sdk.Plugin.{Returned, one_info}
use deepflow_wasm_go_sdk.Plugin.Http.{HttpRequest}
use deepflow_wasm_go_sdk.Plugin.Llm.{StreamInfo, Streams, lookup, assign, delete, minus64, end_info}
use deepflow_wasm_go_sdk.Plugin.Llm.Handlers.{on_response, on_parse_payload}
use deepflow_wasm_go_sdk.Plugin.Llm.Chunks.{
  IsLine, IsSize, chunk, last_chunk, logged, start_messages, end_messages, started, total,
  first_chunk, on_end_known, read_line-IsLine, bytes_eq-false,
}
use deepflow_wasm_go_sdk.Plugin.Llm.Streams.{IsPart, part_known, lookup-assign, lookup-delete}

-- A chunk with something behind it.
pub record Piece : Type 0 where
  pub ctx : ParseCtx
  pub size : Bytes
  pub bytes : Bytes
  pub next : ℕ
  pub more : Bytes

abbrev pub piece_bytes : Piece → Bytes
piece_bytes p = p.size ++ (13 ∷ 10 ∷ (p.bytes ++ (13 ∷ 10 ∷ p.next ∷ p.more)))

-- A response of the flow with a chunk, whose length and bytes are lines.
pub record IsPiece (flow : ℕ) (p : Piece) : Type 0 where
  pub size_fine : IsSize p.size
  pub bytes_fine : IsLine p.bytes
  pub part : IsPart flow (piece_bytes p) p.ctx

unfoldable pub total_length : List Piece → ℕ
total_length [] = 0
total_length (p ∷ ps) = length p.bytes + total_length ps

-- Where something is there, a line is read.
read_line-more : (b : ℕ) (bs : Bytes) → (l : Bytes × Bytes) × (read_line (b ∷ bs) ≡ some l)
unfolding read_line
read_line-more b bs = (_, refl)

module _ {H : Type 0} (host : HostFunctions H) where
  abbrev piece_messages : Piece → StreamInfo → Bytes → List Message
  piece_messages p stream line =
      start_messages p.ctx p.size p.bytes
      ++ (llm_total (total stream p.bytes) ∷ llm_resp_line line ∷ llm_resp_end 4 ∷ [])

  later_piece :
      (p : Piece) (stream : StreamInfo) (line rest : Bytes) (h : H) (streams : Streams)
      → IsSize p.size
      → IsLine p.bytes
      → stream.flag ≢ 0
      → read_line (p.next ∷ p.more) ≡ some (line, rest)
      → on_response host p.ctx stream (piece_bytes p) (h, streams)
        ≡ some (
          some action_next,
          (
            logged host h (piece_messages p stream line),
            assign p.ctx.flow_id (record stream { total_token = total stream p.bytes }) streams,
          ),
        )
  unfolding on_response log
  later_piece p stream line rest h streams s b f l =
      let flag : (stream.flag == 0) ≡ false = ground arith in
      rw
        (
          read_line-IsLine p.size (p.bytes ++ (13 ∷ 10 ∷ p.next ∷ p.more)) s.line,
          s.no_status,
          bytes_eq-false p.size (codes "0") s.no_end,
          read_line-IsLine p.bytes (p.next ∷ p.more) b,
          flag,
          l,
        )
        refl

module _ {H : Type 0} (host : HostFunctions H) (read_request : Bytes → Returned HttpRequest) where
  abbrev parse : ParseCtx → Vm (H × Streams) (ParseCtx × Option Action)
  parse = on_parse_payload host read_request

  -- The responses with later chunks, one after the other.
  unfoldable pub run_pieces : List Piece → Vm (H × Streams) (Unit {0})
  run_pieces [] = pure tt
  run_pieces (p ∷ ps) = parse p.ctx >>= λ a. run_pieces ps

  -- Where the chunks come to: the stream is known, with its tokens and all else as it was.
  record Counted (flow : ℕ) (stream : StreamInfo) (n : ℕ) (r : Option ((Unit {0}) × (H × Streams)))
      : Type 0 where
    h' : H
    streams' : Streams
    ends : r ≡ some (tt, (h', streams'))
    known :
        lookup flow streams'
        ≡ some (record stream { total_token = (stream.total_token + n) % 2 ^ 64 })

  parse_piece :
      (flow : ℕ) (p : Piece) (stream : StreamInfo) (h : H) (streams : Streams)
      → IsPiece flow p
      → lookup flow streams ≡ some stream
      → stream.flag ≢ 0
      → (h' : H) × (parse p.ctx (h, streams)
          ≡ some (
            (p.ctx, some action_next),
            (h', assign flow (record stream { total_token = total stream p.bytes }) streams),
          ))
  parse_piece flow p stream h streams i known f =
      let ((line, rest), l) = read_line-more p.next p.more in
      (
        logged host h (piece_messages host p stream line),
        part_known host read_request flow (piece_bytes p) p.ctx stream h streams i.part known
            ∙ rw (later_piece host p stream line rest h streams i.size_fine i.bytes_fine f l) (
                ap
                  (λ x. some (
                    (p.ctx, some action_next),
                    (
                      logged host h (piece_messages host p stream line),
                      assign x (record stream { total_token = total stream p.bytes }) streams,
                    ),
                  ))
                  i.part.same_flow),
      )

  run_pieces-Counted :
      (flow : ℕ) (ps : List Piece) (stream : StreamInfo) (h : H) (streams : Streams)
      → All (IsPiece flow) ps
      → lookup flow streams ≡ some stream
      → stream.flag ≢ 0
      → stream.total_token < 2 ^ 64
      → Counted flow stream (total_length ps) (run_pieces ps (h, streams))
  unfolding run_pieces total_length
  run_pieces-Counted flow [] stream h streams tt known f small =
      let same : (stream.total_token + 0) % 2 ^ 64 ≡ stream.total_token = omega arith in
      record {
        h' = h;
        streams' = streams;
        ends = refl;
        known = known ∙ ap (λ n. some (record stream { total_token = n })) (sym same);
      }
  run_pieces-Counted flow (p ∷ ps) stream h streams (i, is) known f small =
      let one = parse_piece flow p stream h streams i known f in
      let c =
        run_pieces-Counted flow ps (record stream { total_token = total stream p.bytes }) one.0
          (assign flow (record stream { total_token = total stream p.bytes }) streams) is
          (lookup-assign flow (record stream { total_token = total stream p.bytes }) streams) f
          (omega arith) in
      let sum : (total stream p.bytes + total_length ps) % 2 ^ 64
          ≡ (stream.total_token + (length p.bytes + total_length ps)) % 2 ^ 64 =
        omega arith in
      record {
        h' = c.h';
        streams' = c.streams';
        ends = rw one.1 c.ends;
        known = c.known ∙ ap (λ n. some (record stream { total_token = n })) sum;
      }

  -- The first chunk of a stream that the plugin knows, then any number of payloads with a later
  -- chunk and something behind it, and then the end of the stream: each is answered, the end with
  -- the metrics of the stream, its tokens being the sum of the lengths of the chunks modulo 2^64,
  -- and the stream is forgotten. That sum is not 0; the length and the bytes of a chunk are lines
  -- of less than 4095 bytes, and the length is neither a status line nor 0.
  pub stream_measured :
      (flow : ℕ) (ctx end_ctx : ParseCtx) (stream : StreamInfo) (size bytes : Bytes)
      (ps : List Piece) (rest : Bytes) (n : ℕ) (h : H) (streams : Streams)
      → IsSize size
      → IsLine bytes
      → IsPart flow (chunk size bytes) ctx
      → All (IsPiece flow) ps
      → IsPart flow (last_chunk rest) end_ctx
      → lookup flow streams ≡ some stream
      → stream.flag ≡ 0
      → (length bytes + total_length ps) % 2 ^ 64 ≡ suc n
      → (h' : H) × (streams' : Streams) × (lookup flow streams' ≡ none)
        × ((parse ctx >>= λ a. run_pieces ps >>= λ b. parse end_ctx) (h, streams)
            ≡ some (
              (
                end_ctx,
                some (
                    one_info (
                      end_info
                        (record (started stream ctx bytes) { total_token = suc n })
                        (minus64 end_ctx.time ctx.time / suc n))),
              ),
              (h', streams'),
            ))
  stream_measured flow ctx end_ctx stream size bytes ps rest n h streams s i part pieces end known f
        sum =
      let first : StreamInfo = started stream ctx bytes in
      let h1 : H = logged host h (start_messages ctx size bytes) in
      let streams1 : Streams = assign ctx.flow_id first streams in
      let known1 : lookup flow streams1 ≡ some first =
        ap (λ f. lookup f streams1) (sym part.same_flow)
        ∙ lookup-assign ctx.flow_id first streams in
      let c =
        run_pieces-Counted flow ps first h1 streams1 pieces known1 (omega arith)
          (omega (arith, i.short)) in
      let last : StreamInfo = record first { total_token = suc n } in
      let known2 : lookup flow c.streams' ≡ some last =
        c.known ∙ ap (λ n. some (record first { total_token = n })) sum in
      (
        logged host c.h' (end_messages end_ctx),
        delete end_ctx.flow_id c.streams',
        ap (λ f. lookup f (delete end_ctx.flow_id c.streams')) (sym end.same_flow)
            ∙ lookup-delete end_ctx.flow_id c.streams',
        rw
            (
              part_known host read_request flow (chunk size bytes) ctx stream h streams part known,
              first_chunk host ctx stream size bytes h streams s i f,
              c.ends,
              part_known host read_request flow (last_chunk rest) end_ctx last c.h' c.streams' end
                  known2,
              on_end_known host end_ctx last n rest c.h' c.streams' refl,
            )
            refl,
      )
