-- ===== src/Serde/ParseCtx.antt =====
-- sdk/serde.go, deserializeParseCtx: the context that the agent writes for each call of a plugin.
-- The function is cut into the steps of its body; `b` and `off` are the variables of the source.
pub mod Format
pub mod RoundTrip
pub mod Sound
use deepflow_wasm_go_sdk.Prelude.{
  ℕ, ◌+◌, Bool, ◌||◌, none, some, [], leb, ◌==◌, if◌then◌else◌, length,
}
use deepflow_wasm_go_sdk.Log.{
  ip_type_short, ipv4_short, ipv6_short, ctx_short, proc_name_short, flow_id_short,
  unexpected_ip_type, unexpected_l4, unexpected_ebpf, unexpected_direction,
}
use deepflow_wasm_go_sdk.Go.Result.{Result, ok, err, ◌>>=◌, ◌>>◌, guard}
use deepflow_wasm_go_sdk.Go.Slices.{Bytes, index, slice}
use deepflow_wasm_go_sdk.Go.Binary.{uint16, uint64}
use deepflow_wasm_go_sdk.Host.{
  ParseCtx, udp, tcp, ebpf_trace_point, ebpf_tls_uprobe, ebpf_go_http2_uprobe_data,
  ebpf_go_http2_uprobe, ebpf_unix_socket, ebpf_none, direction_request, direction_response,
}

-- What the switch on the ip type reads, and the offset that it leaves.
pub record Addrs : Type 0 where
  pub src_ip : Bytes
  pub dst_ip : Bytes
  pub src_port : ℕ
  pub dst_port : ℕ
  pub off : ℕ

-- case 4
pub read_ipv4 : Bytes → Result Addrs
read_ipv4 b = do
  guard (leb (1 + 12) (length b)) (some ipv4_short)
  src_ip ← slice b 1 5
  dst_ip ← slice b 5 9
  src_port ← slice b 9 11 >>= uint16
  dst_port ← slice b 11 13 >>= uint16
  ok (record {
    src_ip = src_ip;
    dst_ip = dst_ip;
    src_port = src_port;
    dst_port = dst_port;
    off = 13;
  })

-- case 6
pub read_ipv6 : Bytes → Result Addrs
read_ipv6 b = do
  guard (leb (1 + 36) (length b)) (some ipv6_short)
  src_ip ← slice b 1 17
  dst_ip ← slice b 17 33
  src_port ← slice b 33 35 >>= uint16
  dst_port ← slice b 35 37 >>= uint16
  ok (record {
    src_ip = src_ip;
    dst_ip = dst_ip;
    src_port = src_port;
    dst_port = dst_port;
    off = 37;
  })

pub read_addrs : Bytes → Result Addrs
read_addrs b = do
  guard (leb 1 (length b)) (some ip_type_short)
  ip_type ← index b 0
  if ip_type == 4
      then read_ipv4 b
      else if ip_type == 6
      then read_ipv6 b
      else err (some (unexpected_ip_type ip_type))

abbrev pub is_l4 : ℕ → Bool
is_l4 l4 = l4 == udp || l4 == tcp

abbrev pub is_ebpf_type : ℕ → Bool
is_ebpf_type t =
    t == ebpf_trace_point
    || t == ebpf_tls_uprobe
    || t == ebpf_go_http2_uprobe_data
    || t == ebpf_go_http2_uprobe
    || t == ebpf_unix_socket
    || t == ebpf_none

abbrev pub is_direction : ℕ → Bool
is_direction d = d == direction_request || d == direction_response

-- The bytes between the addresses and the process name.
pub record Flow : Type 0 where
  pub l4 : ℕ
  pub l7 : ℕ
  pub ebpf_type : ℕ
  pub time : ℕ
  pub direction : ℕ
  pub proc_name_len : ℕ

-- `off` is the offset behind the addresses: the source adds 2, 1, 8, 1 and 1 to it on the way.
pub read_flow : Bytes → ℕ → Result Flow
read_flow b off = do
  guard (leb (off + 13) (length b)) (some ctx_short)
  l4 ← index b off
  guard (is_l4 l4) (some (unexpected_l4 l4))
  l7 ← index b (off + 1)
  ebpf_type ← index b (off + 2)
  guard (is_ebpf_type ebpf_type) (some (unexpected_ebpf ebpf_type))
  time ← slice b (off + 3) (off + 11) >>= uint64
  direction ← index b (off + 11)
  guard (is_direction direction) (some (unexpected_direction direction))
  proc_name_len ← index b (off + 12)
  ok (record {
    l4 = l4;
    l7 = l7;
    ebpf_type = ebpf_type;
    time = time;
    direction = direction;
    proc_name_len = proc_name_len;
  })

pub record Tail : Type 0 where
  pub proc_name : Bytes
  pub flow_id : ℕ
  pub buf_size : ℕ

-- The name stays the empty string where the length is 0.
pub read_proc_name : Bytes → ℕ → ℕ → Result Bytes
read_proc_name b off n = if n == 0 then ok [] else slice b off (off + n)

-- `off` is the offset of the process name.
pub read_tail : Bytes → ℕ → ℕ → Result Tail
read_tail b off proc_name_len = do
  guard (leb (off + proc_name_len) (length b)) (some proc_name_short)
  proc_name ← read_proc_name b off proc_name_len
  let off1 = off + proc_name_len
  guard (leb (off1 + 8) (length b)) (some flow_id_short)
  flow_id ← slice b off1 (off1 + 8) >>= uint64
  guard (leb (off1 + 8 + 2) (length b)) (some flow_id_short)
  buf_size ← slice b (off1 + 8) (off1 + 8 + 2) >>= uint16
  ok (record { proc_name = proc_name; flow_id = flow_id; buf_size = buf_size })

abbrev pub to_ctx : Addrs → Flow → Tail → ParseCtx
to_ctx a f t = record {
  src_ip = a.src_ip;
  src_port = a.src_port;
  dst_ip = a.dst_ip;
  dst_port = a.dst_port;
  l4 = f.l4;
  l7 = f.l7;
  ebpf_type = f.ebpf_type;
  time = f.time;
  direction = f.direction;
  proc_name = t.proc_name;
  flow_id = t.flow_id;
  buf_size = t.buf_size;
  payload = none;
}

unfoldable pub deserialize_parse_ctx : Bytes → Result ParseCtx
unfolding read_addrs read_ipv4 read_ipv6 read_flow read_tail read_proc_name
deserialize_parse_ctx b = do
  a ← read_addrs b
  f ← read_flow b a.off
  t ← read_tail b (a.off + 13) f.proc_name_len
  ok (to_ctx a f t)
