-- ===== src/Abi/Safe.antt =====
-- sdk/abi_export.go: parsePayload does not panic, whatever bytes the agent writes.
use deepflow_wasm_go_sdk.Prelude.{
  ℕ, zero, suc, ◌≤◌, ◌≡◌, refl, false, Bool-cases, Option-cases, inl, inr, Option, none, some, List,
  ◌++◌, map, arith, length, take, replicate, length-append, length-replicate, length-take, All,
  All-take, All-append,
}
use deepflow_wasm_go_sdk.Prelude.Int.{pos}
use deepflow_wasm_go_sdk.Go.Result.{Result, ok, err, panic, Ensures, holds, rejected}
use deepflow_wasm_go_sdk.Go.Slices.{Bytes, IsByte}
use deepflow_wasm_go_sdk.Host.{ParseCtx, L7ProtocolInfo}
use deepflow_wasm_go_sdk.Agent.{
  HostFunctions, Vm, pure, resume, ◌>>=◌, front_fits, log, call, read_into, is_zero,
}
use deepflow_wasm_go_sdk.Serde.ParseCtx.Format.{IsValid}
use deepflow_wasm_go_sdk.Serde.ParseCtx.Sound.{deserialize_parse_ctx-Ensures}
use deepflow_wasm_go_sdk.Pb.Varint.{Varint}
use deepflow_wasm_go_sdk.Parser.Action.{Action}
use deepflow_wasm_go_sdk.Parser.Interface.{Parser}
use deepflow_wasm_go_sdk.Abi.Export.{with_ctx, answer_payload, parse_payload, parse_param_buf_size}
use deepflow_wasm_go_sdk.Abi.Outcome.{answer_payload_delivers, delivered}

-- A computation that does not trap.
abbrev pub Runs : {A : Type 0} → Option A → Type 0
Runs {A} m = (a : A) × (m ≡ some a)

-- None of the results is a nil pointer.
abbrev pub NoNil : Action → Type 0
NoNil act = (infos : List L7ProtocolInfo) × (act.payload_result ≡ map some infos)

-- The plugin's answer: it does not trap, and there is no nil pointer among its results.
pub data Answers {H : Type 0} : Option ((ParseCtx × Option Action) × H) → Type 0 where
  no_action : {ctx : ParseCtx} {h : H} → Answers (some ((ctx, none), h))
  action : {ctx : ParseCtx} {act : Action} {h : H} → NoNil act → Answers (some ((ctx, some act), h))

All-zeros : (n : ℕ) → All IsByte (replicate n 0)
All-zeros zero = tt
All-zeros (suc n) = (omega arith, All-zeros n)

module _ {H : Type 0} (v : Varint) (host : HostFunctions H) where
  open host use {vm_read_ctx_base}

  answer_payload-Runs :
      (act : Action) (direction : ℕ) (h : H)
      → NoNil act
      → Runs (answer_payload v host act direction h)
  unfolding answer_payload log
  answer_payload-Runs act direction h (infos, e) = elim (Option-cases act.e) [
    | inl ne ↦ (
      (act.is_abort, delivered v host infos direction h),
      answer_payload_delivers v host act infos direction h ne e,
    )
    | inr (s, f) ↦ rw f (_, refl)
  ]

  called :
      {A : Type 0} (failed : A) (k : ParseCtx → Vm H A) (r : Result ParseCtx) (h : H)
      {P : ParseCtx → Type 0}
      → Ensures (λ c. IsValid c × P c) r
      → ((c : ParseCtx) → IsValid c → Runs (k c h))
      → Runs ((call host r >>= λ ctx. elim ctx [ none ↦ pure failed | some c ↦ k c ]) h)
  unfolding call
  called failed k (ok c) h (holds (valid, _)) q = q c valid
  called failed k panic h x q = elim x [ ]
  called failed k (err none) h rejected q = (_, refl)
  called failed k (err (some m)) h rejected q = (_, refl)

  with_ctx-Runs :
      {A : Type 0} (failed : A) (k : ParseCtx → Vm H A) (h h1 : H) (written : Bytes) (n : ℕ)
      → vm_read_ctx_base h parse_param_buf_size ≡ (h1, written, pos n)
      → n ≤ parse_param_buf_size
      → All IsByte written
      → ((c : ParseCtx) → IsValid c → Runs (k c h1))
      → Runs (with_ctx v host failed k h)
  unfolding with_ctx read_into
  with_ctx-Runs failed k h h1 written n e fits hb q =
      let zeros : Bytes = replicate parse_param_buf_size 0 in
      let buf : Bytes = take parse_param_buf_size (written ++ zeros) in
      let bytes : All IsByte buf =
        All-take IsByte parse_param_buf_size (written ++ zeros)
          (All-append IsByte written zeros hb (All-zeros parse_param_buf_size)) in
      let room : parse_param_buf_size ≤ length (written ++ zeros) =
        omega
          (arith, length-append written zeros, length-replicate {A = ℕ} parse_param_buf_size 0) in
      let size : length buf ≡ parse_param_buf_size =
        length-take parse_param_buf_size (written ++ zeros) room in
      elim (Bool-cases (is_zero (pos n))) [
        | inl z ↦ rw (e, z) (_, refl)
        | inr z ↦
            rw (e, z, front_fits buf n h1 (omega arith))
              (called failed k _ h1
                (deserialize_parse_ctx-Ensures (take n buf) (All-take IsByte n buf bytes)) q)
      ]

  answered :
      (r : Option ((ParseCtx × Option Action) × H))
      → Answers r
      → Runs (
          resume
            (λ (ctx, act). elim act [
              | none ↦ pure false
              | some a ↦ answer_payload v host a ctx.direction
            ])
            r)
  answered none x = elim x [ ]
  answered (some ((ctx, none), h)) no_action = (_, refl)
  answered (some ((ctx, some act), h)) (action full) = answer_payload-Runs act ctx.direction h full

  -- parse_payload returns, whatever bytes the agent wrote and however many it says they are, up to
  -- the size of the buffer, if the plugin does not panic on a valid context and no pointer among
  -- its results is nil.
  pub parse_payload_safe :
      (p : Parser H) (h h1 : H) (written : Bytes) (n : ℕ)
      → vm_read_ctx_base h parse_param_buf_size ≡ (h1, written, pos n)
      → n ≤ parse_param_buf_size
      → All IsByte written
      → ((c : ParseCtx) → IsValid c → Answers (p.on_parse_payload c h1))
      → Runs (parse_payload v host (some p) h)
  unfolding parse_payload
  parse_payload_safe p h h1 written n e fits hb q =
      with_ctx-Runs false _ h h1 written n e fits hb
        λ c valid. answered (p.on_parse_payload c h1) (q c valid)
