-- ===== src/Serde/ParseCtx/RoundTrip.antt =====
-- What the agent writes for a context is read back, whatever follows it in the buffer.
use deepflow_wasm_go_sdk.Prelude.{
  ℕ, suc, ◌+◌, ◌^◌, ◌<◌, ◌≡◌, refl, true, inl, inr, [], ◌∷◌, ◌++◌, arith, length, leb, le→leb,
}
use deepflow_wasm_go_sdk.Go.Result.{ok}
use deepflow_wasm_go_sdk.Go.Slices.{
  Bytes, index, At, At-start, At-skip, length-At, slice-At, index-At,
}
use deepflow_wasm_go_sdk.Go.Binary.{put_uint16, put_uint64}
use deepflow_wasm_go_sdk.Go.Reads.{read_uint16-At, read_uint64-At}
use deepflow_wasm_go_sdk.Host.{ParseCtx}
use deepflow_wasm_go_sdk.Serde.ParseCtx.{
  read_addrs, read_ipv4, read_ipv6, read_flow, read_proc_name, read_tail, is_l4, is_ebpf_type,
  is_direction, deserialize_parse_ctx,
}
use deepflow_wasm_go_sdk.Serde.ParseCtx.Format.{
  addrs_format, flow_format, tail_format, format, SameFamily, IsValid,
}

read_flow-At :
    {off : ℕ} {b : Bytes} (l4 l7 ebpf time dir n : ℕ) (rest : Bytes)
    → At off b (flow_format l4 l7 ebpf time dir n rest)
    → is_l4 l4 ≡ true
    → is_ebpf_type ebpf ≡ true
    → time < 2 ^ 64
    → is_direction dir ≡ true
    → read_flow b off
      ≡ ok (record {
        l4 = l4;
        l7 = l7;
        ebpf_type = ebpf;
        time = time;
        direction = dir;
        proc_name_len = n;
      })
unfolding read_flow
read_flow-At {off} {b} l4 l7 ebpf time dir n rest a h4 he ht hd =
    let a1 : At (off + 1) b (l7 ∷ ebpf ∷ (put_uint64 time ++ dir ∷ n ∷ rest)) =
      At-skip (l4 ∷ []) _ a refl in
    let a2 : At (off + 2) b (ebpf ∷ (put_uint64 time ++ dir ∷ n ∷ rest)) =
      At-skip (l7 ∷ []) _ a1 (omega arith) in
    let a3 : At (off + 3) b (put_uint64 time ++ dir ∷ n ∷ rest) =
      At-skip (ebpf ∷ []) _ a2 (omega arith) in
    let a11 : At (off + 11) b (dir ∷ n ∷ rest) = At-skip (put_uint64 time) _ a3 (omega arith) in
    let a12 : At (off + 12) b (n ∷ rest) = At-skip (dir ∷ []) _ a11 (omega arith) in
    rw (
      le→leb (off + 13) (length b) (omega (arith, length-At a)),
      index-At l4 a,
      h4,
      index-At l7 a1,
      index-At ebpf a2,
      he,
      read_uint64-At time (dir ∷ n ∷ rest) (off + 11) a3 (omega arith) ht,
      index-At dir a11,
      hd,
      index-At n a12,
    )

read_proc_name-At :
    {off : ℕ} {b : Bytes} (name rest : Bytes)
    → At off b (name ++ rest)
    → read_proc_name b off (length name) ≡ ok name
unfolding read_proc_name
read_proc_name-At [] rest a = refl
read_proc_name-At {off} {b} (x ∷ name) rest a =
    let found = slice-At (x ∷ name) rest (off + suc (length name)) a refl in ground (arith, found)

read_tail-At :
    {off : ℕ} {b : Bytes} (name : Bytes) (flow_id buf_size : ℕ) (rest : Bytes)
    → At off b (tail_format name flow_id buf_size rest)
    → flow_id < 2 ^ 64
    → buf_size < 2 ^ 16
    → read_tail b off (length name)
      ≡ ok (record { proc_name = name; flow_id = flow_id; buf_size = buf_size })
unfolding read_tail
read_tail-At {off} {b} name flow_id buf_size rest a hf hb =
    let flow_bytes = put_uint64 flow_id ++ (put_uint16 buf_size ++ rest) in
    let off1 : ℕ = off + length name in
    let a1 : At off1 b flow_bytes = At-skip name off1 a refl in
    let a2 : At (off1 + 8) b (put_uint16 buf_size ++ rest) =
      At-skip (put_uint64 flow_id) (off1 + 8) a1 (omega arith) in
    rw (
      le→leb off1 (length b) a1.within,
      read_proc_name-At name flow_bytes a,
      le→leb (off1 + 8) (length b) a2.within,
      read_uint64-At flow_id (put_uint16 buf_size ++ rest) (off1 + 8) a1 refl hf,
      le→leb (off1 + 8 + 2) (length b) (omega (arith, length-At a2)),
      read_uint16-At buf_size rest (off1 + 8 + 2) a2 refl hb,
    )

-- The addresses of either family, read at the positions that the source writes as numerals.
read_ipv4-At :
    {b : Bytes} (src dst : Bytes) (sp dp : ℕ) (rest : Bytes)
    → At 1 b (src ++ (dst ++ (put_uint16 sp ++ (put_uint16 dp ++ rest))))
    → length src ≡ 4
    → length dst ≡ 4
    → sp < 2 ^ 16
    → dp < 2 ^ 16
    → (read_ipv4 b
        ≡ ok (record { src_ip = src; dst_ip = dst; src_port = sp; dst_port = dp; off = 13 }))
      × At 13 b rest
unfolding read_ipv4
read_ipv4-At {b} src dst sp dp rest a hs hd hsp hdp =
    let a5 : At 5 b (dst ++ (put_uint16 sp ++ (put_uint16 dp ++ rest))) =
      At-skip src 5 a (omega arith) in
    let a9 : At 9 b (put_uint16 sp ++ (put_uint16 dp ++ rest)) = At-skip dst 9 a5 (omega arith) in
    let a11 : At 11 b (put_uint16 dp ++ rest) = At-skip (put_uint16 sp) 11 a9 refl in
    let a13 : At 13 b rest = At-skip (put_uint16 dp) 13 a11 refl in
    (
      rw (
        le→leb 13 (length b) a13.within,
        slice-At src _ 5 a (omega arith),
        slice-At dst _ 9 a5 (omega arith),
        read_uint16-At sp _ 11 a9 refl hsp,
        read_uint16-At dp _ 13 a11 refl hdp,
      ),
      a13,
    )

read_ipv6-At :
    {b : Bytes} (src dst : Bytes) (sp dp : ℕ) (rest : Bytes)
    → At 1 b (src ++ (dst ++ (put_uint16 sp ++ (put_uint16 dp ++ rest))))
    → length src ≡ 16
    → length dst ≡ 16
    → sp < 2 ^ 16
    → dp < 2 ^ 16
    → (read_ipv6 b
        ≡ ok (record { src_ip = src; dst_ip = dst; src_port = sp; dst_port = dp; off = 37 }))
      × At 37 b rest
unfolding read_ipv6
read_ipv6-At {b} src dst sp dp rest a hs hd hsp hdp =
    let a17 : At 17 b (dst ++ (put_uint16 sp ++ (put_uint16 dp ++ rest))) =
      At-skip src 17 a (omega arith) in
    let a33 : At 33 b (put_uint16 sp ++ (put_uint16 dp ++ rest)) =
      At-skip dst 33 a17 (omega arith) in
    let a35 : At 35 b (put_uint16 dp ++ rest) = At-skip (put_uint16 sp) 35 a33 refl in
    let a37 : At 37 b rest = At-skip (put_uint16 dp) 37 a35 refl in
    (
      rw (
        le→leb 37 (length b) a37.within,
        slice-At src _ 17 a (omega arith),
        slice-At dst _ 33 a17 (omega arith),
        read_uint16-At sp _ 35 a33 refl hsp,
        read_uint16-At dp _ 37 a35 refl hdp,
      ),
      a37,
    )

leb-cons : (x : ℕ) (xs : Bytes) → leb 1 (length (x ∷ xs)) ≡ true
leb-cons x xs = le→leb 1 (suc (length xs)) (omega arith)

-- Where the addresses stand first in the buffer, they are read, and `rest` stands behind them.
read_addrs-format :
    (src dst : Bytes) (sp dp : ℕ) (rest : Bytes)
    → SameFamily src dst
    → sp < 2 ^ 16
    → dp < 2 ^ 16
    → let b = addrs_format src dst sp dp rest in
      (off : ℕ) × (read_addrs b
        ≡ ok (record { src_ip = src; dst_ip = dst; src_port = sp; dst_port = dp; off = off }))
      × At off b rest
unfolding read_addrs index
read_addrs-format src dst sp dp rest (inl (hs, hd)) hsp hdp =
    let (e, a) =
      read_ipv4-At src dst sp dp rest (At-skip (4 ∷ []) 1 (At-start _) refl) hs hd hsp hdp in
    (13, rw (hs, leb-cons) e, rw hs a)
read_addrs-format src dst sp dp rest (inr (hs, hd)) hsp hdp =
    let (e, a) =
      read_ipv6-At src dst sp dp rest (At-skip (6 ∷ []) 1 (At-start _) refl) hs hd hsp hdp in
    (37, rw (hs, leb-cons) e, rw hs a)

-- A valid context is read back from its format, whatever bytes follow it in the buffer.
pub deserialize_parse_ctx-format :
    (c : ParseCtx) (rest : Bytes) → IsValid c → deserialize_parse_ctx (format c rest) ≡ ok c
unfolding deserialize_parse_ctx
deserialize_parse_ctx-format c rest v =
    let tail = tail_format c.proc_name c.flow_id c.buf_size rest in
    let name_len : ℕ = length c.proc_name in
    let flow = flow_format c.l4 c.l7 c.ebpf_type c.time c.direction name_len tail in
    let (off, e, a) =
      read_addrs-format c.src_ip c.dst_ip c.src_port c.dst_port flow v.addrs v.src_port
        v.dst_port in
    let a13 : At (off + 13) (format c rest) tail =
      At-skip (flow_format c.l4 c.l7 c.ebpf_type c.time c.direction name_len []) (off + 13) a
        refl in
    rw (
      e,
      read_flow-At c.l4 c.l7 c.ebpf_type c.time c.direction name_len tail a v.l4 v.ebpf_type v.time
          v.direction,
      read_tail-At c.proc_name c.flow_id c.buf_size rest a13 v.flow_id v.buf_size,
      ← v.payload,
    )
