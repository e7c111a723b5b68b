-- ===== src/Plugin/Krpc.antt =====
-- example/krpc/krpc.go: kRPC, a header of eight bytes and a KrpcMeta. The package pb is generated: its
-- UnmarshalVT is a parameter. The int32 fields are bit patterns, of 32 bits.
pub mod Checked
pub mod Handlers
use deepflow_wasm_go_sdk.Prelude.{
  ℕ, ◌+◌, Bool, true, false, not, ◌&&◌, ◌||◌, Option, none, some, List, [], ◌∷◌, ◌++◌, ltb, ◌==◌,
  if◌then◌else◌, length, take,
}
use deepflow_wasm_go_sdk.Prelude.Int.{ℤ, to_uint32}
use deepflow_wasm_go_sdk.Prelude.Text.{codes, bytes_eq}
use deepflow_wasm_go_sdk.Go.Result.{Result, ok, err, ◌>>=◌}
use deepflow_wasm_go_sdk.Go.Slices.{Bytes, slice}
use deepflow_wasm_go_sdk.Go.Binary.{uint16}
use deepflow_wasm_go_sdk.Host.{
  direction_request, direction_response, resp_status_ok, resp_status_server_err,
}

-- pb.KrpcMeta and the trace in it.
pub record MetaTrace : Type 0 where
  pub trace_id : Bytes
  pub span_id : Bytes
  pub parent_span_id : Bytes

pub record KrpcMeta : Type 0 where
  pub direction : ℤ
  pub service_id : ℤ
  pub msg_id : ℤ
  pub sequence : ℤ
  pub ret_code : ℤ
  pub trace : Option MetaTrace

-- UnmarshalVT on an empty KrpcMeta: the message as it leaves it, and whether there is no error.
pub record KrpcPb : Type 0 where
  pub unmarshal_krpc_meta : Bytes → KrpcMeta × Bool

abbrev pub krpc_fix_hdr_len : ℕ
krpc_fix_hdr_len = 8

abbrev pub krpc_protocol : ℕ
krpc_protocol = 1

pub record KrpcInfo : Type 0 where
  pub rrt : ℕ
  pub msg_type : ℕ
  pub msg_id : ℤ
  pub serv_id : ℤ
  pub sequence : ℤ
  pub ret_code : ℤ
  pub trace_id : Bytes
  pub span_id : Bytes
  pub parent_span_id : Bytes
  pub status : ℕ

abbrev pub equals : ℤ → ℕ → Bool
equals (ℤ.pos m) n = m == n
equals (ℤ.negsuc m) n = false

abbrev with_trace : Option MetaTrace → KrpcInfo → KrpcInfo
with_trace none k = k
with_trace (some t) k = record k {
  trace_id = t.trace_id;
  span_id = t.span_id;
  parent_span_id = t.parent_span_id;
}

abbrev filled : KrpcInfo → KrpcMeta → ℕ → KrpcInfo
filled k meta msg_type =
    let k' = with_trace meta.trace (record k {
      msg_type = msg_type;
      msg_id = meta.msg_id;
      serv_id = meta.service_id;
      sequence = meta.sequence;
      ret_code = meta.ret_code;
    }) in
    record k' { status = if equals k'.ret_code 0 then resp_status_ok else resp_status_server_err }

-- fillFromPb: none is the error "unknown krpc direction".
unfoldable pub fill_from_pb : KrpcInfo → KrpcMeta → Option KrpcInfo
fill_from_pb k meta =
    if equals meta.direction 1
    then some (filled k meta direction_request)
    else if equals meta.direction 2
    then some (filled k meta direction_response)
    else none

abbrev pub is_heart_beat : KrpcInfo → Bool
is_heart_beat k = equals k.sequence 0 && equals k.msg_id 1 && equals k.serv_id 1

-- The two characters in front, as bytes.Equal(payload[:2], []byte("KR")).
abbrev has_magic : Bytes → Bool
has_magic payload = bytes_eq (take 2 payload) (codes "KR")

module _ (pb : KrpcPb) where
  open pb use {unmarshal_krpc_meta}

  -- Behind fillFromPb: a heartbeat and a check return nil where err is nil; all else returns err.
  abbrev answer : Bool → Option KrpcInfo → Option KrpcInfo
  answer check none = none
  answer check (some k) = if is_heart_beat k || check then some k else some k

  unfoldable pub fill : KrpcInfo → Bool → Bytes → Option KrpcInfo
  fill k check pb_payload =
      let (meta, fine) = unmarshal_krpc_meta pb_payload in
      if not fine && check then none else answer check (fill_from_pb k meta)

  -- parse: the info as it leaves it, or none, which is an error.
  unfoldable pub parse : KrpcInfo → Bytes → Bool → Result (Option KrpcInfo)
  parse k payload check =
      if ltb (length payload) krpc_fix_hdr_len || not (has_magic payload) then ok none else (do
        front ← slice payload 2 (length payload)
        hdr_len ← uint16 front
        (if ltb (length payload) (hdr_len + krpc_fix_hdr_len)
            then (if check then ok none else (do
              pb_payload ← slice payload krpc_fix_hdr_len (length payload)
              ok (fill k check pb_payload)))
            else (do
              pb_payload ← slice payload krpc_fix_hdr_len (krpc_fix_hdr_len + hdr_len)
              ok (fill k check pb_payload))))
