-- ===== src/Serde/L7Info/Frames.antt =====
-- The framing as a specification: what serializeL7ProtocolInfo returns is the concatenation of the
-- frames of the results, if it fits the buffer.
use deepflow_wasm_go_sdk.Prelude.{
  ℕ, ◌+◌, ◌%◌, ◌^◌, ◌≤◌, ◌<◌, ◌≡◌, refl, sym, ap, ap₂, ◌∙◌, some, List, [], ◌∷◌, ◌++◌, append_assoc,
  append-nil, map, arith, leb, le→leb, leb→le, lt→not_leb, if◌then◌else◌, Bool-cases, inl, inr,
  length, take, drop, replicate, length-append, length-take, length-drop, length-replicate,
  drop-drop, take-append_self,
}
use deepflow_wasm_go_sdk.Log.{l7_info_too_large}
use deepflow_wasm_go_sdk.Go.Result.{ok, err}
use deepflow_wasm_go_sdk.Go.Slices.{Bytes, slice_back, slice_front}
use deepflow_wasm_go_sdk.Go.Copy.{overwrite, overwrite_before, overwrite_behind, length-overwrite}
use deepflow_wasm_go_sdk.Go.Binary.{put_uint16}
use deepflow_wasm_go_sdk.Host.{L7ProtocolInfo, page_size}
use deepflow_wasm_go_sdk.Pb.Varint.{Varint}
use deepflow_wasm_go_sdk.Pb.Size.{size_app_info}
use deepflow_wasm_go_sdk.Pb.Format.{app_info_bytes}
use deepflow_wasm_go_sdk.Pb.Correct.{app_info-Marshals}
use deepflow_wasm_go_sdk.Serde.L7Info.{
  magic, serialize_info, serialize_infos, serialize_into, serialize_l7_protocol_info,
}
use deepflow_wasm_go_sdk.Serde.L7Info.Message.{to_app_info}

-- The two writes of the header in front of the body make one.
header_writes :
    (buf header body : Bytes) (off n : ℕ)
    → length header ≡ 2
    → length body ≡ n
    → off + 4 + n ≤ length buf
    → overwrite
        (overwrite (take (off + 4) buf ++ (body ++ drop n (drop (off + 4) buf))) off header)
        (off + 2)
        magic
      ≡ overwrite buf off (header ++ (magic ++ body))
header_writes buf header body off n hh size h =
    let end : ℕ = off + 4 + length body in
    let shared : drop n (drop (off + 4) buf) ≡ drop end buf =
      drop-drop (off + 4) n end buf (omega arith) in
    let with_body = overwrite buf (off + 4) body in
    let kept = length-overwrite buf (off + 4) body (omega arith) in
    let header_len = length-append header magic in
    rw shared (
      overwrite_behind with_body off (off + 2) header magic (omega arith) (omega arith)
      ∙ overwrite_before buf off (off + 4) (header ++ magic) body (omega arith) (omega arith)
      ∙ ap (overwrite buf off) (append_assoc header magic body))

module _ (v : Varint) (direction : ℕ) where
  -- The length of the magic and the message, the magic, and the message on the wire.
  unfoldable pub frame : L7ProtocolInfo → Bytes
  frame info =
      let body = app_info_bytes v (to_app_info info direction) in
      put_uint16 ((length body + 2) % 2 ^ 16) ++ (magic ++ body)

  unfoldable pub frames : List L7ProtocolInfo → Bytes
  frames [] = []
  frames (info ∷ infos) = frame info ++ frames infos

  serialize_info_fits :
      (info : L7ProtocolInfo) (buf : Bytes) (off : ℕ)
      → off + length (frame info) ≤ length buf
      → serialize_info v info direction buf off
        ≡ ok (overwrite buf off (frame info), off + length (frame info))
  unfolding serialize_info frame
  serialize_info_fits info buf off h =
      let m = app_info-Marshals v (to_app_info info direction) in
      let body : Bytes = app_info_bytes v (to_app_info info direction) in
      let n : ℕ = size_app_info v (to_app_info info direction) in
      let header : Bytes = put_uint16 ((n + 2) % 2 ^ 16) in
      let size = m.size in
      let part_len = length-drop (off + 4) buf in
      let frame_len : length (header ++ (magic ++ body)) ≡ 4 + n = omega arith in
      let fits : off + 4 + n ≤ length buf = omega arith in
      rw
        (
          le→leb (off + 4 + n) (length buf) fits,
          slice_back buf (off + 4) (omega arith),
          m.to_buffer (drop (off + 4) buf),
          le→leb n (length (drop (off + 4) buf)) (omega arith),
        )
        (ap₂ (λ (s : Bytes) (t : ℕ). ok (s, t))
          (header_writes buf header body off n refl size fits
            ∙ ap (λ (k : ℕ). overwrite buf off (put_uint16 ((k + 2) % 2 ^ 16) ++ (magic ++ body)))
                (sym size))
          (omega arith))

  serialize_info_large :
      (info : L7ProtocolInfo) (buf : Bytes) (off : ℕ)
      → length buf < off + length (frame info)
      → serialize_info v info direction buf off ≡ err (some l7_info_too_large)
  unfolding serialize_info frame
  serialize_info_large info buf off h =
      let m = app_info-Marshals v (to_app_info info direction) in
      let n : ℕ = size_app_info v (to_app_info info direction) in
      let size = m.size in rw (lt→not_leb (off + 4 + n) (length buf) (omega arith))

  -- What the loop returns where the frames fit: they stand behind what stood in front of `off`.
  record Framed (infos : List L7ProtocolInfo) (buf : Bytes) (off : ℕ) : Type 0 where
    result : Bytes
    returned :
        serialize_infos v (map some infos) direction buf off
        ≡ ok (result, off + length (frames infos))
    size : length result ≡ length buf
    written : take (off + length (frames infos)) result ≡ take off buf ++ frames infos

  serialize_infos_fits :
      (infos : List L7ProtocolInfo) (buf : Bytes) (off : ℕ)
      → off + length (frames infos) ≤ length buf
      → Framed infos buf off
  unfolding serialize_infos frames
  serialize_infos_fits [] buf off h =
      let same : off ≡ off + 0 = omega arith in
      record {
        result = buf;
        returned = ap (λ (t : ℕ). ok (buf, t)) same;
        size = refl;
        written = rw (← same, append-nil (take off buf));
      }
  serialize_infos_fits (info ∷ infos) buf off h =
      let len = length-append (frame info) (frames infos) in
      let fits : off + length (frame info) ≤ length buf = omega arith in
      let buf' = overwrite buf off (frame info) in
      let off' : ℕ = off + length (frame info) in
      let kept = length-overwrite buf off (frame info) fits in
      let rest = serialize_infos_fits infos buf' off' (omega arith) in
      let end : off' + length (frames infos) ≡ off + length (frame info ++ frames infos) =
        omega arith in
      let front = take off buf ++ frame info in
      let front_len : off' ≡ length front =
        omega
          (arith, length-append (take off buf) (frame info), length-take off buf (omega arith)) in
      let prefix : take off' buf' ≡ front =
        rw (← append_assoc (take off buf) (frame info) (drop off' buf))
          (take-append_self front (drop off' buf) off' front_len) in
      record {
        result = rest.result;
        returned =
            rw (serialize_info_fits info buf off fits)
              (rest.returned ∙ ap (λ (t : ℕ). ok (rest.result, t)) end);
        size = rest.size ∙ kept;
        written =
            rw (← end)
              (rest.written ∙ rw prefix (append_assoc (take off buf) (frame info) (frames infos)));
      }

  serialize_infos_large :
      (infos : List L7ProtocolInfo) (buf : Bytes) (off : ℕ)
      → off ≤ length buf
      → length buf < off + length (frames infos)
      → serialize_infos v (map some infos) direction buf off ≡ err (some l7_info_too_large)
  unfolding serialize_infos frames
  serialize_infos_large [] buf off k h = absurd (omega arith)
  serialize_infos_large (info ∷ infos) buf off k h =
      let len = length-append (frame info) (frames infos) in
      elim (Bool-cases (leb (off + length (frame info)) (length buf))) [
        | inl g ↦
            let fits : off + length (frame info) ≤ length buf = leb→le _ _ g in
            let kept = length-overwrite buf off (frame info) fits in
            rw (serialize_info_fits info buf off fits) (
              serialize_infos_large infos (overwrite buf off (frame info))
                (off + length (frame info)) (omega arith) (omega arith))
        | inr g ↦ rw (serialize_info_large info buf off (ground arith))
      ]

  -- The serialization on a buffer of any size, without a nil pointer among the results: the frames
  -- of the results in order, if they fit it, and otherwise nil, with the message that the data is
  -- too large.
  pub serialize_into_lem :
      (buf : Bytes) (infos : List L7ProtocolInfo)
      → serialize_into v buf (map some infos) direction ≡ (
          if leb (length (frames infos)) (length buf)
          then ok (frames infos)
          else err (some l7_info_too_large))
  unfolding serialize_into
  serialize_into_lem buf infos = elim (Bool-cases (leb (length (frames infos)) (length buf))) [
    | inl g ↦
        let n : ℕ = length (frames infos) in
        let r = serialize_infos_fits infos buf 0 (omega (arith, leb→le _ _ g)) in
        let zero_off : 0 + n ≡ n = omega arith in
        let size = r.size in
        let fits = leb→le _ _ g in
        rw (g, r.returned, slice_front r.result (0 + n) (omega arith), r.written)
    | inr g ↦ rw (g, serialize_infos_large infos buf 0 (omega arith) (ground arith))
  ]

  -- Without a nil pointer among the results, serializeL7ProtocolInfo returns their frames in order
  -- if they take at most 65536 bytes, and otherwise nil, with the message that the data is too
  -- large.
  pub serialize_l7_protocol_info_lem :
      (infos : List L7ProtocolInfo)
      → serialize_l7_protocol_info v (map some infos) direction ≡ (
          if leb (length (frames infos)) page_size
          then ok (frames infos)
          else err (some l7_info_too_large))
  unfolding serialize_l7_protocol_info
  serialize_l7_protocol_info_lem infos =
      serialize_into_lem (replicate page_size 0) infos
      ∙ ap
          (λ (n : ℕ).
            if leb (length (frames infos)) n
            then ok (frames infos)
            else err (some l7_info_too_large))
          (length-replicate {A = ℕ} page_size 0)
