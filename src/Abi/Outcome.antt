-- ===== src/Abi/Outcome.antt =====
-- sdk/abi_export.go: what the handlers come to, end to end, on what the agent wrote.
use deepflow_wasm_go_sdk.Prelude.{
  ℕ, ◌≤◌, ◌≡◌, refl, false, none, some, List, [], ◌∷◌, ◌++◌, map, arith, leb, if◌then◌else◌, length,
  take, replicate, length-append, length-replicate, length-take, take-take, take-append_self,
}
use deepflow_wasm_go_sdk.Prelude.Int.{ℤ, pos}
use deepflow_wasm_go_sdk.Log.{l7_info_too_large}
use deepflow_wasm_go_sdk.Go.Slices.{Bytes}
use deepflow_wasm_go_sdk.Host.{ParseCtx, L7ProtocolInfo, page_size}
use deepflow_wasm_go_sdk.Agent.{HostFunctions, Vm, front, front_fits, call, read_into, is_zero}
use deepflow_wasm_go_sdk.Serde.ParseCtx.Format.{format, IsValid}
use deepflow_wasm_go_sdk.Serde.ParseCtx.RoundTrip.{deserialize_parse_ctx-format}
use deepflow_wasm_go_sdk.Serde.L7Info.Frames.{frames, serialize_l7_protocol_info_lem}
use deepflow_wasm_go_sdk.Pb.Varint.{Varint}
use deepflow_wasm_go_sdk.Parser.Action.{Action}
use deepflow_wasm_go_sdk.Parser.Interface.{Parser}
use deepflow_wasm_go_sdk.Abi.Export.{
  send_l7, deliver, with_ctx, answer_payload, parse_payload, parse_param_buf_size,
}

module _ {H : Type 0} (v : Varint) (host : HostFunctions H) where
  open host use {wasm_log, host_read_l7_protocol_info, vm_read_ctx_base}

  -- The agent behind the end of a handler: it got the frames of the results in one call, or a log
  -- where they are too large, or nothing where there are none.
  unfoldable pub delivered : List L7ProtocolInfo → ℕ → H → H
  delivered infos direction h =
      let payload = frames v direction infos in
      if leb (length payload) page_size
      then elim payload [ [] ↦ h | b ∷ bs ↦ (host_read_l7_protocol_info h (b ∷ bs)).0 ]
      else wasm_log h l7_info_too_large

  -- The end of a handler returns whether the action aborts, and does to the agent what `delivered`
  -- says.
  pub deliver_lem :
      (act : Action) (infos : List L7ProtocolInfo) (direction : ℕ) (h : H)
      → deliver v host act (map some infos) direction h
        ≡ some (act.is_abort, delivered infos direction h)
  unfolding deliver delivered call send_l7
  deliver_lem act infos direction h =
      rw (serialize_l7_protocol_info_lem v direction infos) (ground arith)

  -- What a read that fits leaves in the buffer, and its front.
  pub read_fits :
      (read : H → ℕ → H × Bytes × ℤ) (n : ℕ) (h h' : H) (xs : Bytes)
      → read h n ≡ (h', xs, pos (length xs))
      → read_into host read n h ≡ some ((take n (xs ++ replicate n 0), pos (length xs)), h')
  unfolding read_into
  read_fits read n h h' xs e = rw e

  pub front_read :
      (n : ℕ) (xs : Bytes) (h : H)
      → length xs ≤ n
      → front (take n (xs ++ replicate n 0)) (pos (length xs)) h ≡ some (xs, h)
  front_read n xs h fits =
      let buf : Bytes = xs ++ replicate n 0 in
      let len = length-append xs (replicate n 0) in
      let zeros = length-replicate {A = ℕ} n 0 in
      let size = length-take n buf (omega arith) in
      rw (
        front_fits (take n buf) (length xs) h (omega arith),
        take-take (length xs) n buf fits,
        take-append_self xs (replicate n 0) (length xs) refl,
      )

  -- Where the agent wrote the format of a context, the handler goes on with that context.
  pub with_ctx-format :
      {A : Type 0} (failed : A) (k : ParseCtx → Vm H A) (ctx : ParseCtx) (rest : Bytes) (h h1 : H)
      → IsValid ctx
      → vm_read_ctx_base h parse_param_buf_size
        ≡ (h1, format ctx rest, pos (length (format ctx rest)))
      → length (format ctx rest) ≤ parse_param_buf_size
      → with_ctx v host failed k h ≡ k ctx h1
  unfolding with_ctx call
  with_ctx-format failed k ctx rest h h1 valid e fits =
      let test : is_zero (pos (length (format ctx rest))) ≡ false = ground arith in
      rw (
        read_fits vm_read_ctx_base parse_param_buf_size h h1 (format ctx rest) e,
        test,
        front_read parse_param_buf_size (format ctx rest) h1 fits,
        deserialize_parse_ctx-format ctx rest valid,
      )

  -- An action without an error: its results are delivered.
  pub answer_payload_delivers :
      (act : Action) (infos : List L7ProtocolInfo) (direction : ℕ) (h : H)
      → act.e ≡ none
      → act.payload_result ≡ map some infos
      → answer_payload v host act direction h ≡ some (act.is_abort, delivered infos direction h)
  unfolding answer_payload delivered frames deliver
  answer_payload_delivers act [] direction h ne r = rw (ne, r) refl
  answer_payload_delivers act (i ∷ infos) direction h ne r =
      rw (ne, r) (deliver_lem act (i ∷ infos) direction h)

  -- parse_payload, where the agent wrote the format of a valid context, which fits the buffer, and
  -- the plugin gives an action without an error and without a nil pointer among its results: it
  -- returns whether the action aborts, and the agent gets the frames of the results, in the
  -- direction of the context as the plugin left it, or a log where they are too large, or nothing
  -- where there are none.
  pub parse_payload_lem :
      (p : Parser H) (ctx ctx' : ParseCtx) (rest : Bytes) (act : Action)
      (infos : List L7ProtocolInfo) (h h1 h2 : H)
      → IsValid ctx
      → vm_read_ctx_base h parse_param_buf_size
        ≡ (h1, format ctx rest, pos (length (format ctx rest)))
      → length (format ctx rest) ≤ parse_param_buf_size
      → p.on_parse_payload ctx h1 ≡ some ((ctx', some act), h2)
      → act.e ≡ none
      → act.payload_result ≡ map some infos
      → parse_payload v host (some p) h ≡ some (act.is_abort, delivered infos ctx'.direction h2)
  unfolding parse_payload
  parse_payload_lem p ctx ctx' rest act infos h h1 h2 valid e fits q ne r =
      rw (with_ctx-format false _ ctx rest h h1 valid e fits, q)
        (answer_payload_delivers act infos ctx'.direction h2 ne r)
