-- ===== src/Serde/ParseCtx/Format.antt =====
-- The serial format that the comment above deserializeParseCtx describes, as the bytes that the
-- agent sends for a context.
use deepflow_wasm_go_sdk.Prelude.{
  ℕ, ◌^◌, ◌<◌, ◌≡◌, true, ◌⊎◌, none, ◌∷◌, ◌++◌, length, ◌==◌, if◌then◌else◌,
}
use deepflow_wasm_go_sdk.Go.Slices.{Bytes}
use deepflow_wasm_go_sdk.Go.Binary.{put_uint16, put_uint64}
use deepflow_wasm_go_sdk.Host.{ParseCtx}
use deepflow_wasm_go_sdk.Serde.ParseCtx.{is_l4, is_ebpf_type, is_direction}

-- Each part of the format, in front of the bytes `rest`.
abbrev pub addrs_format : Bytes → Bytes → ℕ → ℕ → Bytes → Bytes
addrs_format src_ip dst_ip src_port dst_port rest =
    (if length src_ip == 4 then 4 else 6)
    ∷ (src_ip ++ (dst_ip ++ (put_uint16 src_port ++ (put_uint16 dst_port ++ rest))))

abbrev pub flow_format : ℕ → ℕ → ℕ → ℕ → ℕ → ℕ → Bytes → Bytes
flow_format l4 l7 ebpf_type time direction proc_name_len rest =
    l4 ∷ l7 ∷ ebpf_type ∷ (put_uint64 time ++ direction ∷ proc_name_len ∷ rest)

abbrev pub tail_format : Bytes → ℕ → ℕ → Bytes → Bytes
tail_format proc_name flow_id buf_size rest =
    proc_name ++ (put_uint64 flow_id ++ (put_uint16 buf_size ++ rest))

abbrev pub format : ParseCtx → Bytes → Bytes
format c rest = addrs_format c.src_ip c.dst_ip c.src_port c.dst_port (
    flow_format c.l4 c.l7 c.ebpf_type c.time c.direction (length c.proc_name)
      (tail_format c.proc_name c.flow_id c.buf_size rest))

-- Two addresses of one family.
abbrev pub SameFamily : Bytes → Bytes → Type 0
SameFamily src dst = ((length src ≡ 4) × (length dst ≡ 4)) ⊎ ((length src ≡ 16) × (length dst ≡ 16))

-- The contexts that the format can express.
pub record IsValid (c : ParseCtx) : Type 0 where
  pub addrs : SameFamily c.src_ip c.dst_ip
  pub src_port : c.src_port < 2 ^ 16
  pub dst_port : c.dst_port < 2 ^ 16
  pub l4 : is_l4 c.l4 ≡ true
  pub l7 : c.l7 < 256
  pub ebpf_type : is_ebpf_type c.ebpf_type ≡ true
  pub time : c.time < 2 ^ 64
  pub direction : is_direction c.direction ≡ true
  pub proc_name : length c.proc_name < 256
  pub flow_id : c.flow_id < 2 ^ 64
  pub buf_size : c.buf_size < 2 ^ 16
  pub payload : c.payload ≡ none
