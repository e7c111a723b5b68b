-- ===== src/Plugin/Llm/Chunks.antt =====
-- What a payload with a chunk, or with the end of the stream, does to the stream.
use deepflow_wasm_go_sdk.Prelude.{
  ℕ, suc, ◌+◌, ◌<◌, ◌%◌, ◌^◌, ◌/◌, ◌≡◌, ◌≢◌, refl, true, false, Bool-cases, inl, inr, none, some,
  List, [], ◌∷◌, ◌++◌, ◌==◌, All, length, arith,
}
use deepflow_wasm_go_sdk.Prelude.Text.{codes, bytes_eq, bytes_eq_iff}
use deepflow_wasm_go_sdk.Go.Slices.{Bytes}
use deepflow_wasm_go_sdk.Go.Lines.{read_line, read_line-crlf}
use deepflow_wasm_go_sdk.Log.{
  Message, llm_resp_start, llm_resp_line, llm_resp_chunk, llm_total, llm_resp_end,
}
use deepflow_wasm_go_sdk.Host.{ParseCtx}
use deepflow_wasm_go_sdk.Agent.{HostFunctions, log}
use deepflow_wasm_go_sdk.Parser.Action.{action_next}
use deepflow_wasm_go_sdk.Plugin.{one_info}
use deepflow_wasm_go_sdk.Plugin.Llm.{
  StreamInfo, Streams, assign, delete, is_status_line, divide, minus64, end_info,
}
use deepflow_wasm_go_sdk.Plugin.Llm.Handlers.{on_response, on_end}

-- A line without a line feed that fits the buffer with CR LF.
pub record IsLine (s : Bytes) : Type 0 where
  pub short : length s + 1 < 4096
  pub no_line_feed : All (λ b. (b == 10) ≡ false) s

pub read_line-IsLine :
    (s rest : Bytes) → IsLine s → read_line (s ++ (13 ∷ 10 ∷ rest)) ≡ some (s, rest)
read_line-IsLine s rest i = read_line-crlf s rest i.short i.no_line_feed

zero_IsLine : IsLine (codes "0")
zero_IsLine = record { short = omega arith; no_line_feed = (refl, tt) }

-- The length of a chunk: a line that is neither a status line nor 0.
pub record IsSize (size : Bytes) : Type 0 where
  pub line : IsLine size
  pub no_status : is_status_line size ≡ false
  pub no_end : size ≢ codes "0"

-- The payload of a chunk, and that of the end.
abbrev pub chunk : Bytes → Bytes → Bytes
chunk size bytes = size ++ (13 ∷ 10 ∷ (bytes ++ (13 ∷ 10 ∷ [])))

abbrev pub last_chunk : Bytes → Bytes
last_chunk rest = codes "0" ++ (13 ∷ 10 ∷ rest)

pub bytes_eq-false : (xs ys : Bytes) → xs ≢ ys → bytes_eq xs ys ≡ false
bytes_eq-false xs ys h = elim (Bool-cases (bytes_eq xs ys)) [
  | inl e ↦ absurd (h ((bytes_eq_iff xs ys).0 e))
  | inr e ↦ e
]

-- The agent behind the messages of a list.
abbrev pub logged : {H : Type 0} → HostFunctions H → H → List Message → H
logged host h [] = h
logged host h (m ∷ ms) = logged host (host.wasm_log h m) ms

abbrev pub start_messages : ParseCtx → Bytes → Bytes → List Message
start_messages ctx size bytes =
    llm_resp_start ctx.src_ip ctx.src_port ctx.dst_ip ctx.dst_port ctx.flow_id
    ∷ llm_resp_line size
    ∷ llm_resp_chunk ctx.time bytes
    ∷ []

abbrev pub end_messages : ParseCtx → List Message
end_messages ctx =
    llm_resp_start ctx.src_ip ctx.src_port ctx.dst_ip ctx.dst_port ctx.flow_id
    ∷ llm_resp_line (codes "0")
    ∷ []

abbrev pub started : StreamInfo → ParseCtx → Bytes → StreamInfo
started stream ctx bytes = record stream {
  flag = 1;
  resp_first_chunked_time = ctx.time;
  total_token = length bytes;
}

abbrev pub total : StreamInfo → Bytes → ℕ
total stream bytes = (stream.total_token + length bytes) % 2 ^ 64

module _ {H : Type 0} (host : HostFunctions H) where
  pub first_chunk :
      (ctx : ParseCtx) (stream : StreamInfo) (size bytes : Bytes) (h : H) (streams : Streams)
      → IsSize size
      → IsLine bytes
      → stream.flag ≡ 0
      → on_response host ctx stream (chunk size bytes) (h, streams)
        ≡ some (
          some action_next,
          (
            logged host h (start_messages ctx size bytes),
            assign ctx.flow_id (started stream ctx bytes) streams,
          ),
        )
  unfolding on_response log
  first_chunk ctx stream size bytes h streams s b f =
      let flag : (stream.flag == 0) ≡ true = ground arith in
      rw (
        read_line-IsLine size (bytes ++ (13 ∷ 10 ∷ [])) s.line,
        s.no_status,
        bytes_eq-false size (codes "0") s.no_end,
        read_line-IsLine bytes [] b,
        flag,
      )

  pub later_chunk :
      (ctx : ParseCtx) (stream : StreamInfo) (size bytes : Bytes) (h : H) (streams : Streams)
      → IsSize size
      → IsLine bytes
      → stream.flag ≢ 0
      → on_response host ctx stream (chunk size bytes) (h, streams)
        ≡ some (
          some action_next,
          (
            logged host h (
                start_messages ctx size bytes
                ++ (llm_total (total stream bytes) ∷ llm_resp_end 3 ∷ [])),
            delete ctx.flow_id
                (assign ctx.flow_id (record stream { total_token = total stream bytes }) streams),
          ),
        )
  unfolding on_response read_line log delete
  later_chunk ctx stream size bytes h streams s b f =
      let flag : (stream.flag == 0) ≡ false = ground arith in
      rw (
        read_line-IsLine size (bytes ++ (13 ∷ 10 ∷ [])) s.line,
        s.no_status,
        bytes_eq-false size (codes "0") s.no_end,
        read_line-IsLine bytes [] b,
        flag,
      )

  -- The end of a stream of which nothing is known panics.
  pub on_end_new :
      (ctx : ParseCtx) (stream : StreamInfo) (rest : Bytes) (x : H × Streams)
      → stream.total_token ≡ 0
      → on_response host ctx stream (last_chunk rest) x ≡ none
  unfolding on_response on_end divide log
  on_end_new ctx stream rest x e = rw (read_line-IsLine (codes "0") rest zero_IsLine, e)

  pub on_end_known :
      (ctx : ParseCtx) (stream : StreamInfo) (n : ℕ) (rest : Bytes) (h : H) (streams : Streams)
      → stream.total_token ≡ suc n
      → on_response host ctx stream (last_chunk rest) (h, streams)
        ≡ some (
          some (
              one_info (end_info stream (minus64 ctx.time stream.resp_first_chunked_time / suc n))),
          (logged host h (end_messages ctx), delete ctx.flow_id streams),
        )
  unfolding on_response on_end divide log
  on_end_known ctx stream n rest h streams e = rw (read_line-IsLine (codes "0") rest zero_IsLine, e)
