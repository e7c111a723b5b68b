-- ===== src/Serde/CustomMessage.antt =====
-- sdk/serde.go, deserializeCustomMessageCtx: hook point, type code and protobuf payload of a message.
-- `len`, `len+10` and `10+len` are uint32 in the source, so both sums are taken modulo 2^32.
use deepflow_wasm_go_sdk.Prelude.{
  ℕ, ◌+◌, ◌-◌, ◌%◌, ◌^◌, ◌≤◌, ◌<◌, ◌≡◌, ◌↔◌, refl, sym, ap, ◌∙◌, none, some, ◌++◌, arith, leb,
  le→leb, leb→le, length, length-append, take, drop, Bool-cases, inl, inr, ◌&&◌, take-append-drop,
  length-take, length-drop, drop-drop, All,
}
use deepflow_wasm_go_sdk.Log.{custom_message_short}
use deepflow_wasm_go_sdk.Go.Result.{
  Result, ok, panic, ◌>>=◌, ◌>>◌, guard, OnOk, OnOk-ok, OnOk-bind, OnOk-then, OnOk-guard, panicked,
}
use deepflow_wasm_go_sdk.Go.Slices.{
  Bytes, IsByte, slice, At, At-start, At-skip, length-At, slice-At, slice_backwards,
}
use deepflow_wasm_go_sdk.Go.Binary.{uint16, uint32, put_uint16, put_uint32}
use deepflow_wasm_go_sdk.Go.Reads.{
  read_uint16-At, read_uint32-At, read_uint16-Ensures, read_uint32-Ensures,
}
use deepflow_wasm_go_sdk.Host.{CustomMessageCtx, ParseCtx}
use deepflow_wasm_go_sdk.Serde.ParseCtx.{deserialize_parse_ctx}
use deepflow_wasm_go_sdk.Serde.ParseCtx.Format.{IsValid, format}
use deepflow_wasm_go_sdk.Serde.ParseCtx.RoundTrip.{deserialize_parse_ctx-format}
use deepflow_wasm_go_sdk.Serde.ParseCtx.Sound.{deserialize_parse_ctx-Ensures}

unfoldable pub deserialize_custom_message_ctx : Bytes → Bytes → Result CustomMessageCtx
deserialize_custom_message_ctx param_buf msg_buf = do
  guard (leb 10 (length msg_buf)) none
  base_ctx ← deserialize_parse_ctx param_buf
  hook_point ← slice msg_buf 0 2 >>= uint16
  type_code ← slice msg_buf 2 6 >>= uint32
  len ← slice msg_buf 6 10 >>= uint32
  guard (leb ((len + 10) % 2 ^ 32) (length msg_buf % 2 ^ 32)) (some custom_message_short)
  payload ← slice msg_buf 10 ((10 + len) % 2 ^ 32)
  ok (record {
    base_ctx = base_ctx;
    hook_point = hook_point;
    type_code = type_code;
    payload = payload;
  })

-- The message format of the comment above the function, in front of `rest`; `len` is what the
-- length field says.
abbrev pub message_format : ℕ → ℕ → ℕ → Bytes → Bytes
message_format hook_point type_code len rest =
    put_uint16 hook_point ++ (put_uint32 type_code ++ (put_uint32 len ++ rest))

pub record MessageFormat (param_buf msg_buf : Bytes) (c : CustomMessageCtx) : Type 0 where
  pub base : IsValid c.base_ctx
  pub hook_point : c.hook_point < 2 ^ 16
  pub type_code : c.type_code < 2 ^ 32
  pub payload : length c.payload + 10 < 2 ^ 32
  pub param : (rest : Bytes) × (param_buf ≡ format c.base_ctx rest)
  pub body :
      (rest : Bytes) × (msg_buf
        ≡ message_format c.hook_point c.type_code (length c.payload) (c.payload ++ rest))

slice-OnOk :
    (b : Bytes) (len hi : ℕ)
    → hi ≡ (10 + len) % 2 ^ 32
    → len < 2 ^ 32
    → 10 ≤ length b
    → OnOk
        (λ xs. (length xs ≡ len) × (len + 10 < 2 ^ 32) × (drop 10 b ≡ xs ++ drop hi b))
        (slice b 10 hi)
unfolding slice
slice-OnOk b len hi e h long = elim (Bool-cases (leb 10 hi && leb hi (length b))) [
  | inl g ↦
      let low : 10 ≤ hi = ground arith in
      let high : hi ≤ length b = ground arith in
      rw g (
        OnOk.holds (
          length-take (hi - 10) (drop 10 b) (omega (arith, length-drop 10 b)) ∙ omega arith,
          omega arith,
          sym (take-append-drop (hi - 10) (drop 10 b))
              ∙ ap (λ t. take (hi - 10) (drop 10 b) ++ t)
                  (drop-drop 10 (hi - 10) hi b (omega arith)),
        ))
  | inr g ↦ rw g panicked
]

deserialize_custom_message_ctx-OnOk :
    (p b : Bytes)
    → All IsByte p
    → All IsByte b
    → OnOk (MessageFormat p b) (deserialize_custom_message_ctx p b)
unfolding deserialize_custom_message_ctx
deserialize_custom_message_ctx-OnOk p b hp hb = OnOk-guard _ _ λ g.
    let long : 10 ≤ length b = leb→le _ _ g in
    OnOk-bind (deserialize_parse_ctx-Ensures p hp) λ base (v, param).
      OnOk-bind (read_uint16-Ensures b 0 2 refl (omega arith) hb) λ hook (a0, h0).
        OnOk-bind (read_uint32-Ensures b 2 6 refl (omega arith) hb) λ code (a2, h2).
          OnOk-bind (read_uint32-Ensures b 6 10 refl (omega arith) hb) λ len (a6, h6).
            OnOk-guard (leb ((len + 10) % 2 ^ 32) (length b % 2 ^ 32)) _ λ fits.
              OnOk-then (slice-OnOk b len ((10 + len) % 2 ^ 32) refl h6 long)
                λ payload (l, small, d).
                  let short : length payload + 10 < 2 ^ 32 = omega arith in
                  OnOk.holds (record {
                    base = v;
                    hook_point = h0;
                    type_code = h2;
                    payload = short;
                    param = param;
                    body =
                        (drop ((10 + len) % 2 ^ 32) b, cc (a0.suffix, a2.suffix, a6.suffix, l, d));
                  })

-- On buffers of bytes, the second shorter than 2^32, deserializeCustomMessageCtx returns `c`
-- exactly when the parameter buffer starts with the format of its base context, which is valid,
-- and the message buffer with its hook point, type code and payload, the payload behind its
-- length.
pub deserialize_custom_message_ctx_iff :
    (p b : Bytes) (c : CustomMessageCtx)
    → All IsByte p
    → All IsByte b
    → length b < 2 ^ 32
    → (deserialize_custom_message_ctx p b ≡ ok c) ↔ MessageFormat p b c
unfolding deserialize_custom_message_ctx
deserialize_custom_message_ctx_iff p b c hp hb hl = (
  OnOk-ok (deserialize_custom_message_ctx-OnOk p b hp hb),
  λ f.
      let (prest, e) = f.param in
      let (rest, e2) = f.body in
      let n : ℕ = length c.payload in
      let len = length-append c.payload rest in
      let a0 : At 0 b (message_format c.hook_point c.type_code n (c.payload ++ rest)) =
        rw e2 (At-start _) in
      let a2 : At 2 b (put_uint32 c.type_code ++ (put_uint32 n ++ (c.payload ++ rest))) =
        At-skip (put_uint16 c.hook_point) 2 a0 refl in
      let a6 : At 6 b (put_uint32 n ++ (c.payload ++ rest)) =
        At-skip (put_uint32 c.type_code) 6 a2 refl in
      let a10 : At 10 b (c.payload ++ rest) = At-skip (put_uint32 n) 10 a6 refl in
      let small = f.payload in
      let whole : length b ≡ 10 + (n + length rest) = length-At a10 ∙ ap (λ t. 10 + t) len in
      let fits : (n + 10) % 2 ^ 32 ≤ length b % 2 ^ 32 = omega arith in
      let hi : (10 + n) % 2 ^ 32 ≡ 10 + n = omega arith in
      rw (
        le→leb 10 (length b) a10.within,
        e,
        deserialize_parse_ctx-format c.base_ctx prest f.base,
        read_uint16-At c.hook_point _ 2 a0 refl f.hook_point,
        read_uint32-At c.type_code _ 6 a2 refl f.type_code,
        read_uint32-At n _ 10 a6 refl (omega arith),
        le→leb _ _ fits,
        hi,
        slice-At c.payload rest (10 + n) a10 refl,
      ),
)

-- A length field of 2^32 - 10 or more passes the check, since the sum wraps around, and the slice
-- expression panics: on every message with such a field, shorter than 2^32, whose parameter buffer
-- starts with the format of a valid base context.
pub deserialize_custom_message_ctx_panic :
    (base : ParseCtx) (prest : Bytes) (hook_point type_code len : ℕ) (rest : Bytes)
    → IsValid base
    → hook_point < 2 ^ 16
    → type_code < 2 ^ 32
    → 2 ^ 32 - 10 ≤ len
    → len < 2 ^ 32
    → length rest + 10 < 2 ^ 32
    → deserialize_custom_message_ctx
        (format base prest)
        (message_format hook_point type_code len rest)
      ≡ panic
unfolding deserialize_custom_message_ctx
deserialize_custom_message_ctx_panic base prest hook code len rest v hh hc big hl short =
    let b : Bytes = message_format hook code len rest in
    let a0 : At 0 b b = At-start b in
    let a2 : At 2 b (put_uint32 code ++ (put_uint32 len ++ rest)) =
      At-skip (put_uint16 hook) 2 a0 refl in
    let a6 : At 6 b (put_uint32 len ++ rest) = At-skip (put_uint32 code) 6 a2 refl in
    let a10 : At 10 b rest = At-skip (put_uint32 len) 10 a6 refl in
    let wraps : (len + 10) % 2 ^ 32 ≤ length b % 2 ^ 32 = omega (arith, length-At a10) in
    rw (
      le→leb 10 (length b) a10.within,
      deserialize_parse_ctx-format base prest v,
      read_uint16-At hook _ 2 a0 refl hh,
      read_uint32-At code _ 6 a2 refl hc,
      read_uint32-At len _ 10 a6 refl hl,
      le→leb _ _ wraps,
      slice_backwards b 10 ((10 + len) % 2 ^ 32) (omega arith),
    )
