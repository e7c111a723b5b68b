-- ===== src/Serde/HttpResp.antt =====
-- sdk/serde.go, deserializeHttpRespCtx: the code and status of a response, and the endpoint that
-- newer agents add.
use deepflow_wasm_go_sdk.Prelude.{
  ℕ, zero, suc, ◌+◌, ◌-◌, ◌^◌, ◌<◌, ◌≡◌, ◌↔◌, refl, Bool, true, ◌&&◌, ◌||◌, none, some, [], ◌∷◌,
  ◌++◌, arith, leb, le→leb, leb→le, ltb, ◌==◌, if◌then◌else◌, length, take, drop, All,
}
use deepflow_wasm_go_sdk.Log.{unknown_status}
use deepflow_wasm_go_sdk.Go.Result.{
  Result, ok, ◌>>=◌, ◌>>◌, guard, Ensures, holds, rejected, Ensures-bind, Ensures-guard, Ensures-ok,
}
use deepflow_wasm_go_sdk.Go.Slices.{
  Bytes, IsByte, index, slice, At, At-start, At-skip, index-At, slice-At, index-Ensures,
}
use deepflow_wasm_go_sdk.Go.Binary.{be16, uint16, put_uint16}
use deepflow_wasm_go_sdk.Go.Reads.{read_uint16-At, read_uint16-Ensures}
use deepflow_wasm_go_sdk.Host.{
  HttpRespCtx, resp_status_ok, resp_status_timeout, resp_status_server_err, resp_status_client_err,
  resp_status_unknown,
}
use deepflow_wasm_go_sdk.Serde.ParseCtx.{deserialize_parse_ctx}
use deepflow_wasm_go_sdk.Serde.ParseCtx.Format.{IsValid, format}
use deepflow_wasm_go_sdk.Serde.ParseCtx.RoundTrip.{deserialize_parse_ctx-format}
use deepflow_wasm_go_sdk.Serde.ParseCtx.Sound.{deserialize_parse_ctx-Ensures}

abbrev pub is_resp_status : ℕ → Bool
is_resp_status s =
    s == resp_status_ok
    || s == resp_status_timeout
    || s == resp_status_server_err
    || s == resp_status_client_err
    || s == resp_status_unknown

-- `off` is 3. An endpoint that is missing or runs past the buffer leaves the empty string.
unfoldable pub read_endpoint : Bytes → Result Bytes
read_endpoint b =
    if leb (3 + 2) (length b)
    then (do
      endpoint_len ← slice b 3 5 >>= uint16
      if ltb 0 endpoint_len && leb (5 + endpoint_len) (length b)
          then slice b 5 (5 + endpoint_len)
          else ok [])
    else ok []

unfoldable pub deserialize_http_resp_ctx : Bytes → Bytes → Result HttpRespCtx
deserialize_http_resp_ctx param_buf http_resp_buf = do
  guard (leb 3 (length http_resp_buf)) none
  status ← index http_resp_buf 2
  guard (is_resp_status status) (some (unknown_status status))
  base_ctx ← deserialize_parse_ctx param_buf
  code ← slice http_resp_buf 0 2 >>= uint16
  endpoint ← read_endpoint http_resp_buf
  ok (record { base_ctx = base_ctx; code = code; status = status; endpoint = endpoint })

-- The endpoint in the bytes behind the status: as many bytes as the two first say, if they are all
-- there. An old agent sends no such bytes.
abbrev pub endpoint_in : Bytes → Bytes
endpoint_in (a ∷ b ∷ rest) = if leb (be16 a b) (length rest) then take (be16 a b) rest else []
endpoint_in _ = []

pub record RespFormat (param_buf http_resp_buf : Bytes) (c : HttpRespCtx) : Type 0 where
  pub base : IsValid c.base_ctx
  pub code : c.code < 2 ^ 16
  pub status : is_resp_status c.status ≡ true
  pub param : (rest : Bytes) × (param_buf ≡ format c.base_ctx rest)
  pub body :
      (tail : Bytes) × (http_resp_buf ≡ put_uint16 c.code ++ c.status ∷ tail)
      × (c.endpoint ≡ endpoint_in tail)

endpoint_read :
    (n : ℕ) (b rest : Bytes)
    → drop 5 b ≡ rest
    → length b ≡ 5 + length rest
    → (if ltb 0 n && leb (5 + n) (length b) then slice b 5 (5 + n) else ok [])
      ≡ ok (if leb n (length rest) then take n rest else [])
unfolding slice
endpoint_read zero b rest d l = ground arith
endpoint_read (suc n) b rest d l =
    let len : 5 + suc n - 5 ≡ suc n = omega arith in rw (d, len, l) (ground arith)

-- The endpoint is found behind the third byte, on every buffer that has three.
read_endpoint_lem :
    (x y s : ℕ) (tail : Bytes) → read_endpoint (x ∷ y ∷ s ∷ tail) ≡ ok (endpoint_in tail)
unfolding read_endpoint
read_endpoint_lem x y s [] = refl
read_endpoint_lem x y s (a ∷ []) = refl
read_endpoint_lem x y s (a ∷ c ∷ rest) =
    let b : Bytes = x ∷ y ∷ s ∷ a ∷ c ∷ rest in
    let long : leb 5 (length b) ≡ true = le→leb 5 (length b) (omega arith) in
    let len_bytes : slice b 3 5 ≡ ok (a ∷ c ∷ []) =
      slice-At (a ∷ c ∷ []) rest 5 (At-skip (x ∷ y ∷ s ∷ []) 3 (At-start b) refl) refl in
    rw (long, len_bytes) (unfold uint16 in endpoint_read (be16 a c) b rest refl (omega arith))

-- On buffers of bytes deserializeHttpRespCtx does not panic, and a context that it returns is what
-- the two buffers hold.
pub deserialize_http_resp_ctx-Ensures :
    (p b : Bytes)
    → All IsByte p
    → All IsByte b
    → Ensures (RespFormat p b) (deserialize_http_resp_ctx p b)
unfolding deserialize_http_resp_ctx
deserialize_http_resp_ctx-Ensures p [] hp hb = rejected
deserialize_http_resp_ctx-Ensures p (x ∷ []) hp hb = rejected
deserialize_http_resp_ctx-Ensures p (x ∷ y ∷ []) hp hb = rejected
deserialize_http_resp_ctx-Ensures p (x ∷ y ∷ s ∷ tail) hp hb = Ensures-guard _ _ λ g.
    Ensures-bind (index-Ensures (x ∷ y ∷ s ∷ tail) 2 3 refl (leb→le _ _ g) hb) λ status (a2, _).
      Ensures-guard (is_resp_status status) _ λ hs.
        Ensures-bind (deserialize_parse_ctx-Ensures p hp) λ base (v, param).
          Ensures-bind
            (read_uint16-Ensures (x ∷ y ∷ s ∷ tail) 0 2 refl (omega (arith, leb→le _ _ g)) hb)
            λ code (a0, hc). rw (read_endpoint_lem x y s tail) (
              holds (record {
                base = v;
                code = hc;
                status = hs;
                param = param;
                body = (tail, cc (a0.suffix, a2.suffix), refl);
              }))

-- On buffers of bytes, deserializeHttpRespCtx returns `c` exactly when the parameter buffer starts
-- with the format of its base context, which is valid, and the response buffer holds its code, its
-- status, which is one of the five, and behind them the endpoint, which is empty if its bytes are
-- missing or cut short.
pub deserialize_http_resp_ctx_iff :
    (p b : Bytes) (c : HttpRespCtx)
    → All IsByte p
    → All IsByte b
    → (deserialize_http_resp_ctx p b ≡ ok c) ↔ RespFormat p b c
unfolding deserialize_http_resp_ctx
deserialize_http_resp_ctx_iff p b c hp hb = (
  Ensures-ok (deserialize_http_resp_ctx-Ensures p b hp hb),
  λ f.
      let (rest, e) = f.param in
      let (tail, e2, e3) = f.body in
      let buf : Bytes = put_uint16 c.code ++ c.status ∷ tail in
      let a2 : At 2 buf (c.status ∷ tail) = At-skip (put_uint16 c.code) 2 (At-start buf) refl in
      rw (
        e,
        e2,
        le→leb 3 (length buf) (omega arith),
        index-At c.status a2,
        f.status,
        deserialize_parse_ctx-format c.base_ctx rest f.base,
        read_uint16-At c.code (c.status ∷ tail) 2 (At-start buf) refl f.code,
        read_endpoint_lem _ _ c.status tail,
        ← e3,
      ),
)
