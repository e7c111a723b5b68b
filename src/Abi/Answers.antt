-- ===== src/Abi/Answers.antt =====
-- sdk/abi_export.go: what checkPayload and getHookBitmap return.
use deepflow_wasm_go_sdk.Prelude.{
  ℕ, zero, suc, ◌+◌, ◌*◌, ◌^◌, ◌≤◌, ◌<◌, ◌≡◌, refl, sym, ◌∙◌, true, Bool-cases, inl, inr, none,
  some, List, [], ◌∷◌, ◌++◌, arith, ltb, le→leb, ◌==◌, if◌then◌else◌, length, take, take_all,
  length-take_le, map, max, not_ltb→le, length-replicate, replicate, bit_or,
}
use deepflow_wasm_go_sdk.Prelude.Bits.{bit, bit-bit_or, bit_or-byte}
use deepflow_wasm_go_sdk.Prelude.Int.{pos}
use deepflow_wasm_go_sdk.Go.Slices.{Bytes}
use deepflow_wasm_go_sdk.Go.Copy.{overwrite_all}
use deepflow_wasm_go_sdk.Go.Binary.{put_uint16, put_uint64}
use deepflow_wasm_go_sdk.Host.{ParseCtx}
use deepflow_wasm_go_sdk.Agent.{HostFunctions}
use deepflow_wasm_go_sdk.Serde.Str.{write_str, write_str_lem}
use deepflow_wasm_go_sdk.Serde.ParseCtx.Format.{format, IsValid}
use deepflow_wasm_go_sdk.Pb.Varint.{Varint}
use deepflow_wasm_go_sdk.Parser.Hooks.{HookBitmap}
use deepflow_wasm_go_sdk.Parser.Interface.{Parser, Check}
use deepflow_wasm_go_sdk.Abi.Export.{
  log_if, send_str, answer_check, check_payload, union_from, get_hook_bitmap, parse_param_buf_size,
}
use deepflow_wasm_go_sdk.Abi.Outcome.{with_ctx-format}

abbrev pub largest : List ℕ → ℕ
largest [] = 0
largest (b ∷ bs) = max b (largest bs)

-- A bit of the union is set exactly if it is set in one of the bitmaps, in either half.
pub union_from_bits :
    (k : ℕ) (u : HookBitmap) (bs : List HookBitmap)
    → (bit k (union_from u bs).hi ≡ max (bit k u.hi) (largest (map (λ b. bit k b.hi) bs)))
      × (bit k (union_from u bs).lo ≡ max (bit k u.lo) (largest (map (λ b. bit k b.lo) bs)))
unfolding union_from
union_from_bits k u [] = (omega arith, omega arith)
union_from_bits k u (b ∷ bs) =
    let (hi, lo) = union_from_bits k (record { hi = bit_or u.hi b.hi; lo = bit_or u.lo b.lo }) bs in
    (omega (arith, hi, bit-bit_or k u.hi b.hi), omega (arith, lo, bit-bit_or k u.lo b.lo))

bit-zero : (k : ℕ) → bit k 0 ≡ 0
unfolding bit
bit-zero zero = refl
bit-zero (suc k) = bit-zero k

-- The two halves of 64 bits are the union of the plugin's bitmaps.
abbrev pub IsUnion : HookBitmap → List HookBitmap → Type 0
IsUnion u bs =
    (k : ℕ)
    → (bit k u.hi ≡ largest (map (λ b. bit k b.hi) bs))
      × (bit k u.lo ≡ largest (map (λ b. bit k b.lo) bs))

-- get_hook_bitmap, where HookIn returns, shows the agent the 16 bytes of a bitmap, the high half
-- first, in which a bit is set exactly if it is set in one of the bitmaps of HookIn.
pub get_hook_bitmap_lem :
    {H : Type 0} (p : Parser H) (bs : List HookBitmap) (h h' : H)
    → p.hook_in h ≡ some (bs, h')
    → (u : HookBitmap) × (get_hook_bitmap (some p) h
        ≡ some (some (put_uint64 u.hi ++ put_uint64 u.lo), h'))
      × IsUnion u bs
unfolding get_hook_bitmap
get_hook_bitmap_lem p bs h h' e =
    let start : HookBitmap = record { hi = 0; lo = 0 } in
    (
      union_from start bs,
      rw e refl,
      λ k.
          let (hi, lo) = union_from_bits k start bs in
          (omega (arith, hi, bit-zero k), omega (arith, lo, bit-zero k)),
    )

-- A name cut to 16 bytes, behind its length.
abbrev pub name_format : Bytes → Bytes
name_format name = put_uint16 (length (take 16 name)) ++ take 16 name

cut : (name : Bytes) → (if ltb 16 (length name) then take 16 name else name) ≡ take 16 name
cut name = elim (Bool-cases (ltb 16 (length name))) [
  | inl e ↦ rw e refl
  | inr e ↦ rw e (sym (take_all 16 name (not_ltb→le (length name) 16 e)))
]

write_name :
    (name : Bytes)
    → length name ≤ 16
    → write_str name (replicate (length name + 2) 0) 0 ≡ record {
      buf = put_uint16 (length name) ++ name;
      offset = length name + 2;
      done = true;
      logged = none;
    }
write_name name h =
    let zeros : Bytes = replicate (length name + 2) 0 in
    let size = length-replicate {A = ℕ} (length name + 2) 0 in
    let done = write_str_lem name zeros 0 (omega arith) in
    let end : 0 + 2 + length name ≡ length name + 2 = omega arith in
    done
    ∙ rw
        (
          le→leb (0 + 2 + length name) (length zeros) (omega arith),
          overwrite_all zeros (put_uint16 (length name) ++ name) (omega arith),
          end,
        )
        refl

module _ {H : Type 0} (v : Varint) (host : HostFunctions H) where
  open host use {vm_read_ctx_base, host_read_str_result}

  answer_check_lem :
      (c : Check) (h : H)
      → c.proto_num < 2 ^ 8
      → answer_check v host c h ≡ (
          if c.proto_num == 0
          then some (0, h)
          else (let (h', taken) = host_read_str_result h (name_format c.proto_str) in
              some (if taken then c.direction * 2 ^ 8 + c.proto_num else 0, h')))
  unfolding answer_check log_if send_str
  answer_check_lem c h small =
      rw
        (
          cut c.proto_str,
          write_name (take 16 c.proto_str) (length-take_le 16 c.proto_str),
          bit_or-byte c.direction c.proto_num small,
        )
        (ground arith)

  -- check_payload, where the agent wrote the format of a valid context, which fits the buffer, and
  -- the plugin gives a protocol number of one byte: it returns 0 if the number is 0; otherwise it
  -- offers the agent the name, cut to 16 bytes, behind its length, and returns 0 if the agent does
  -- not take it, and else the direction in front of the byte of the number.
  pub check_payload_lem :
      (p : Parser H) (ctx ctx' : ParseCtx) (rest : Bytes) (c : Check) (h h1 h2 : H)
      → IsValid ctx
      → vm_read_ctx_base h parse_param_buf_size
        ≡ (h1, format ctx rest, pos (length (format ctx rest)))
      → length (format ctx rest) ≤ parse_param_buf_size
      → p.on_check_payload ctx h1 ≡ some ((ctx', c), h2)
      → c.proto_num < 2 ^ 8
      → check_payload v host (some p) h ≡ (
          if c.proto_num == 0
          then some (0, h2)
          else (let (h3, taken) = host_read_str_result h2 (name_format c.proto_str) in
              some (if taken then c.direction * 2 ^ 8 + c.proto_num else 0, h3)))
  unfolding check_payload
  check_payload_lem p ctx ctx' rest c h h1 h2 valid e fits q small =
      rw (with_ctx-format v host {A = ℕ} 0 _ ctx rest h h1 valid e fits, q)
        (answer_check_lem c h2 small)
