-- ===== src/Serde/ParseCtx/Sound.antt =====
-- On any buffer of bytes deserializeParseCtx does not panic, and it accepts nothing but the format.
use deepflow_wasm_go_sdk.Prelude.{
  ℕ, ◌+◌, ◌^◌, ◌≤◌, ◌<◌, ◌≡◌, ◌↔◌, refl, sym, ap, ◌∙◌, subst, true, inl, inr, ◌∷◌, ◌++◌, arith,
  length, drop, All, leb→le, ==_iff, ◌==◌,
}
use deepflow_wasm_go_sdk.Go.Result.{
  ok, Ensures, holds, rejected, Ensures-bind, Ensures-guard, Ensures-if, Ensures-map, Ensures-ok,
}
use deepflow_wasm_go_sdk.Go.Slices.{Bytes, IsByte, At, slice-Ensures, index-Ensures}
use deepflow_wasm_go_sdk.Go.Reads.{read_uint16-Ensures, read_uint64-Ensures}
use deepflow_wasm_go_sdk.Host.{ParseCtx}
use deepflow_wasm_go_sdk.Serde.ParseCtx.{
  Addrs, Flow, Tail, read_addrs, read_ipv4, read_ipv6, read_flow, read_proc_name, read_tail, is_l4,
  is_ebpf_type, is_direction, deserialize_parse_ctx,
}
use deepflow_wasm_go_sdk.Serde.ParseCtx.Format.{
  addrs_format, flow_format, tail_format, format, SameFamily, IsValid,
}
use deepflow_wasm_go_sdk.Serde.ParseCtx.RoundTrip.{deserialize_parse_ctx-format}

-- `b` is `ip_type` and the addresses `a`, and goes on behind them.
record AddrsOf (b : Bytes) (a : Addrs) : Type 0 where
  family : SameFamily a.src_ip a.dst_ip
  src_port : a.src_port < 2 ^ 16
  dst_port : a.dst_port < 2 ^ 16
  within : a.off ≤ length b
  bytes : b ≡ addrs_format a.src_ip a.dst_ip a.src_port a.dst_port (drop a.off b)

module _ (b : Bytes) (hb : All IsByte b) where
  read_ipv4-Ensures : At 0 b (4 ∷ drop 1 b) → Ensures (AddrsOf b) (read_ipv4 b)
  unfolding read_ipv4
  read_ipv4-Ensures first = Ensures-guard _ _ λ g.
      let long : 13 ≤ length b = leb→le _ _ g in
      Ensures-bind (slice-Ensures b 1 5 (omega arith) (omega arith) hb) λ src (a1, l1, _).
        Ensures-bind (slice-Ensures b 5 9 (omega arith) (omega arith) hb) λ dst (a5, l5, _).
          Ensures-bind (read_uint16-Ensures b 9 11 refl (omega arith) hb) λ sp (a9, h9).
            Ensures-bind (read_uint16-Ensures b 11 13 refl (omega arith) hb) λ dp (a11, h11).
              holds (record {
                family = inl (l1, l5);
                src_port = h9;
                dst_port = h11;
                within = long;
                bytes = rw l1 (
                    first.suffix
                    ∙ ap (λ t. 4 ∷ t) (cc (a1.suffix, a5.suffix, a9.suffix, a11.suffix)));
              })

  read_ipv6-Ensures : At 0 b (6 ∷ drop 1 b) → Ensures (AddrsOf b) (read_ipv6 b)
  unfolding read_ipv6
  read_ipv6-Ensures first = Ensures-guard _ _ λ g.
      let long : 37 ≤ length b = leb→le _ _ g in
      Ensures-bind (slice-Ensures b 1 17 (omega arith) (omega arith) hb) λ src (a1, l1, _).
        Ensures-bind (slice-Ensures b 17 33 (omega arith) (omega arith) hb) λ dst (a17, l17, _).
          Ensures-bind (read_uint16-Ensures b 33 35 refl (omega arith) hb) λ sp (a33, h33).
            Ensures-bind (read_uint16-Ensures b 35 37 refl (omega arith) hb) λ dp (a35, h35).
              holds (record {
                family = inr (l1, l17);
                src_port = h33;
                dst_port = h35;
                within = long;
                bytes = rw l1 (
                    first.suffix
                    ∙ ap (λ t. 6 ∷ t) (cc (a1.suffix, a17.suffix, a33.suffix, a35.suffix)));
              })

  read_addrs-Ensures : Ensures (AddrsOf b) (read_addrs b)
  unfolding read_addrs
  read_addrs-Ensures = Ensures-guard _ _ λ g.
      Ensures-bind (index-Ensures b 0 1 refl (leb→le _ _ g) hb) λ t (a0, _).
        Ensures-if (t == 4)
          (λ e. read_ipv4-Ensures (subst (λ x. At 0 b (x ∷ drop 1 b)) ((==_iff t 4).0 e) a0))
          (λ _.
            Ensures-if (t == 6)
              (λ e. read_ipv6-Ensures (subst (λ x. At 0 b (x ∷ drop 1 b)) ((==_iff t 6).0 e) a0))
              (λ _. rejected))

  record FlowOf (off : ℕ) (f : Flow) : Type 0 where
    l4 : is_l4 f.l4 ≡ true
    l7 : f.l7 < 256
    ebpf_type : is_ebpf_type f.ebpf_type ≡ true
    time : f.time < 2 ^ 64
    direction : is_direction f.direction ≡ true
    proc_name_len : f.proc_name_len < 256
    within : off + 13 ≤ length b
    bytes :
        drop off b
        ≡ flow_format f.l4 f.l7 f.ebpf_type f.time f.direction f.proc_name_len (drop (off + 13) b)

  read_flow-Ensures : (off : ℕ) → Ensures (FlowOf off) (read_flow b off)
  unfolding read_flow
  read_flow-Ensures off = Ensures-guard _ _ λ g.
      let long : off + 13 ≤ length b = leb→le _ _ g in
      Ensures-bind (index-Ensures b off (off + 1) (omega arith) (omega arith) hb) λ l4 (a0, _).
        Ensures-guard (is_l4 l4) _ λ h4.
          Ensures-bind (index-Ensures b (off + 1) (off + 2) (omega arith) (omega arith) hb)
            λ l7 (a1, h7).
              Ensures-bind (index-Ensures b (off + 2) (off + 3) (omega arith) (omega arith) hb)
                λ ebpf (a2, _). Ensures-guard (is_ebpf_type ebpf) _ λ he.
                  Ensures-bind
                    (read_uint64-Ensures b (off + 3) (off + 11) (omega arith) (omega arith) hb)
                    λ time (a3, ht).
                      Ensures-bind
                        (index-Ensures b (off + 11) (off + 12) (omega arith) (omega arith) hb)
                        λ dir (a11, _). Ensures-guard (is_direction dir) _ λ hd.
                          Ensures-bind
                            (index-Ensures b (off + 12) (off + 13) (omega arith) (omega arith) hb)
                            λ n (a12, hn). holds (record {
                              l4 = h4;
                              l7 = h7;
                              ebpf_type = he;
                              time = ht;
                              direction = hd;
                              proc_name_len = hn;
                              within = long;
                              bytes = cc (
                                a0.suffix, a1.suffix, a2.suffix, a3.suffix, a11.suffix, a12.suffix,
                              );
                            })

  record TailOf (off n : ℕ) (t : Tail) : Type 0 where
    proc_name : length t.proc_name ≡ n
    flow_id : t.flow_id < 2 ^ 64
    buf_size : t.buf_size < 2 ^ 16
    bytes : drop off b ≡ tail_format t.proc_name t.flow_id t.buf_size (drop (off + n + 8 + 2) b)

  read_proc_name-Ensures :
      (off n : ℕ)
      → off + n ≤ length b
      → Ensures
          (λ name. (length name ≡ n) × (drop off b ≡ name ++ drop (off + n) b))
          (read_proc_name b off n)
  unfolding read_proc_name
  read_proc_name-Ensures off n h =
      Ensures-if (n == 0)
        (λ e.
          let zero_len = (==_iff n 0).0 e in
          holds (sym zero_len, let same : off + n ≡ off = omega arith in rw same))
        (λ _.
          Ensures-map (slice-Ensures b off (off + n) (omega arith) h hb)
            λ name (a, l, _). (omega arith, a.suffix))

  read_tail-Ensures : (off n : ℕ) → Ensures (TailOf off n) (read_tail b off n)
  unfolding read_tail
  read_tail-Ensures off n = Ensures-guard _ _ λ g.
      Ensures-bind (read_proc_name-Ensures off n (leb→le _ _ g)) λ name (ln, d0).
        Ensures-guard _ _ λ g1.
          Ensures-bind (read_uint64-Ensures b (off + n) (off + n + 8) refl (leb→le _ _ g1) hb)
            λ flow_id (a1, hf). Ensures-guard _ _ λ g2.
              Ensures-bind
                (read_uint16-Ensures b (off + n + 8) (off + n + 8 + 2) refl (leb→le _ _ g2) hb)
                λ buf_size (a2, hs). holds (record {
                  proc_name = ln;
                  flow_id = hf;
                  buf_size = hs;
                  bytes = cc (d0, a1.suffix, a2.suffix);
                })

-- On a buffer of bytes deserializeParseCtx does not panic, and a context that it returns is valid
-- and is what the buffer starts with.
pub deserialize_parse_ctx-Ensures :
    (b : Bytes)
    → All IsByte b
    → Ensures (λ c. IsValid c × ((rest : Bytes) × (b ≡ format c rest))) (deserialize_parse_ctx b)
unfolding deserialize_parse_ctx
deserialize_parse_ctx-Ensures b hb = Ensures-bind (read_addrs-Ensures b hb) λ a ha.
    Ensures-bind (read_flow-Ensures b hb a.off) λ f hf.
      Ensures-bind (read_tail-Ensures b hb (a.off + 13) f.proc_name_len) λ t ht.
        let n = f.proc_name_len in
        holds (
          record {
            addrs = ha.family;
            src_port = ha.src_port;
            dst_port = ha.dst_port;
            l4 = hf.l4;
            l7 = hf.l7;
            ebpf_type = hf.ebpf_type;
            time = hf.time;
            direction = hf.direction;
            proc_name = omega (arith, hf.proc_name_len, ht.proc_name);
            flow_id = ht.flow_id;
            buf_size = ht.buf_size;
            payload = refl;
          },
          (drop (a.off + 13 + n + 8 + 2) b, cc (ha.bytes, hf.bytes, ht.bytes, ht.proc_name)),
        )

-- On a buffer of bytes, deserializeParseCtx returns `c` exactly when `c` is valid and the buffer
-- starts with its format.
pub deserialize_parse_ctx_iff :
    (b : Bytes) (c : ParseCtx)
    → All IsByte b
    → (deserialize_parse_ctx b ≡ ok c) ↔ (IsValid c × ((rest : Bytes) × (b ≡ format c rest)))
deserialize_parse_ctx_iff b c hb = (
  Ensures-ok (deserialize_parse_ctx-Ensures b hb),
  λ (v, (rest, e)). rw e (deserialize_parse_ctx-format c rest v),
)
