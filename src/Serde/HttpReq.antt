-- ===== src/Serde/HttpReq.antt =====
-- sdk/serde.go, deserializeHttpReqCtx: the path, host, user agent and referer of a request.
use deepflow_wasm_go_sdk.Prelude.{
  ◌≤◌, ◌≡◌, ◌↔◌, refl, sym, subst, none, List, [], ◌∷◌, arith, leb, le→leb, length, length-append,
  get_or, All,
}
use deepflow_wasm_go_sdk.Go.Result.{
  Result, ok, ◌>>=◌, ◌>>◌, guard, Ensures, holds, Ensures-bind, Ensures-guard, Ensures-ok,
}
use deepflow_wasm_go_sdk.Go.Slices.{Bytes, IsByte, At-start}
use deepflow_wasm_go_sdk.Host.{HttpReqCtx, ParseCtx}
use deepflow_wasm_go_sdk.Serde.ParseCtx.{deserialize_parse_ctx}
use deepflow_wasm_go_sdk.Serde.ParseCtx.Format.{IsValid, format}
use deepflow_wasm_go_sdk.Serde.ParseCtx.RoundTrip.{deserialize_parse_ctx-format}
use deepflow_wasm_go_sdk.Serde.ParseCtx.Sound.{deserialize_parse_ctx-Ensures}
use deepflow_wasm_go_sdk.Serde.Strings.{
  read_strs, strs_format, IsShort, read_strs-At, read_strs-Ensures,
}

abbrev to_ctx : ParseCtx → List Bytes → HttpReqCtx
to_ctx base s = record {
  base_ctx = base;
  path = get_or s 0 [];
  host = get_or s 1 [];
  user_agent = get_or s 2 [];
  referer = get_or s 3 [];
}

-- `s` is the array of the four strings.
unfoldable pub deserialize_http_req_ctx : Bytes → Bytes → Result HttpReqCtx
deserialize_http_req_ctx param_buf http_req_buf = do
  guard (leb 8 (length http_req_buf)) none
  base_ctx ← deserialize_parse_ctx param_buf
  s ← read_strs 4 http_req_buf 0
  ok (to_ctx base_ctx s)

abbrev pub req_strs : HttpReqCtx → List Bytes
req_strs c = c.path ∷ c.host ∷ c.user_agent ∷ c.referer ∷ []

-- The two buffers start with the base context and with the four strings of `c`.
pub record ReqFormat (param_buf http_req_buf : Bytes) (c : HttpReqCtx) : Type 0 where
  pub base : IsValid c.base_ctx
  pub strs : All IsShort (req_strs c)
  pub param : (rest : Bytes) × (param_buf ≡ format c.base_ctx rest)
  pub body : (rest : Bytes) × (http_req_buf ≡ strs_format (req_strs c) rest)

eight-le-strs : (a b c d rest : Bytes) → 8 ≤ length (strs_format (a ∷ b ∷ c ∷ d ∷ []) rest)
eight-le-strs a b c d rest = omega (
  arith,
  length-append a (strs_format (b ∷ c ∷ d ∷ []) rest),
  length-append b (strs_format (c ∷ d ∷ []) rest),
  length-append c (strs_format (d ∷ []) rest),
)

four_strs : (base : ParseCtx) (ss : List Bytes) → length ss ≡ 4 → req_strs (to_ctx base ss) ≡ ss
four_strs base (a ∷ b ∷ c ∷ d ∷ []) h = refl
four_strs base [] h = absurd (omega arith)
four_strs base (a ∷ []) h = absurd (omega arith)
four_strs base (a ∷ b ∷ []) h = absurd (omega arith)
four_strs base (a ∷ b ∷ c ∷ []) h = absurd (omega arith)
four_strs base (a ∷ b ∷ c ∷ d ∷ e ∷ ss) h = absurd (omega arith)

-- On buffers of bytes deserializeHttpReqCtx does not panic, and a context that it returns is what
-- the two buffers start with.
pub deserialize_http_req_ctx-Ensures :
    (p b : Bytes)
    → All IsByte p
    → All IsByte b
    → Ensures (ReqFormat p b) (deserialize_http_req_ctx p b)
unfolding deserialize_http_req_ctx
deserialize_http_req_ctx-Ensures p b hp hb = Ensures-guard _ _ λ _.
    Ensures-bind (deserialize_parse_ctx-Ensures p hp) λ base (v, param).
      Ensures-bind (read_strs-Ensures b hb 4 0 (omega arith)) λ ss (l, hss, (rest, e)).
        let same = sym (four_strs base ss l) in
        holds {a = to_ctx base ss} (record {
          base = v;
          strs = subst (All IsShort) same hss;
          param = param;
          body = (rest, subst (λ s. b ≡ strs_format s rest) same e);
        })

-- On buffers of bytes, deserializeHttpReqCtx returns `c` exactly when the parameter buffer starts
-- with the format of its base context, which is valid, and the request buffer with its path, host,
-- user agent and referer, each shorter than 2^16 and behind its length.
pub deserialize_http_req_ctx_iff :
    (p b : Bytes) (c : HttpReqCtx)
    → All IsByte p
    → All IsByte b
    → (deserialize_http_req_ctx p b ≡ ok c) ↔ ReqFormat p b c
unfolding deserialize_http_req_ctx
deserialize_http_req_ctx_iff p b c hp hb = (
  Ensures-ok (deserialize_http_req_ctx-Ensures p b hp hb),
  λ f.
      let (rest, e) = f.param in
      let (more, e2) = f.body in
      rw (
        e,
        e2,
        le→leb 8 _ (eight-le-strs c.path c.host c.user_agent c.referer more),
        deserialize_parse_ctx-format c.base_ctx rest f.base,
        read_strs-At (req_strs c) more (At-start _) f.strs,
      ),
)
