-- ===== src/Pb/Correct.antt =====
-- What the marshalling methods of each message come to, for callers: MarshalToSizedBufferVT,
-- MarshalToVT and MarshalVT write the wire format, and SizeVT is its length.
use deepflow_wasm_go_sdk.Prelude.{
  ℕ, ◌-◌, ◌≤◌, ◌≡◌, ap, ◌++◌, arith, leb, leb→le, Bool-cases, inl, inr, if◌then◌else◌, length, take,
  drop, replicate, length-take, length-replicate, take_all,
}
use deepflow_wasm_go_sdk.Go.Result.{ok, panic}
use deepflow_wasm_go_sdk.Go.Slices.{Bytes, slice_front, slice_past}
use deepflow_wasm_go_sdk.Go.Copy.{overwrite, overwrite_all}
use deepflow_wasm_go_sdk.Pb.Messages.{AppInfo, NatsMessage, ZmtpMessage}
use deepflow_wasm_go_sdk.Pb.Varint.{Varint}
use deepflow_wasm_go_sdk.Pb.Writer.{Marshal, Encodes}
use deepflow_wasm_go_sdk.Pb.Marshal.{
  marshal_to, marshal_new, marshal_app_info, marshal_nats_message, marshal_zmtp_message,
}
use deepflow_wasm_go_sdk.Pb.Size.{size_app_info, size_nats_message, size_zmtp_message}
use deepflow_wasm_go_sdk.Pb.Format.{app_info_bytes, nats_message_bytes, zmtp_message_bytes}
use deepflow_wasm_go_sdk.Pb.Wire.{app_info-Encodes, nats_message-Encodes, zmtp_message-Encodes}
use deepflow_wasm_go_sdk.Pb.Lengths.{length-app_info, length-nats_message, length-zmtp_message}

module _ {marshal : Marshal} {xs : Bytes} (e : Encodes marshal xs) (n : ℕ)
    (size : length xs ≡ n) where
  marshal_sized :
      (buf : Bytes) → n ≤ length buf → marshal buf ≡ ok (overwrite buf (length buf - n) xs, n)
  marshal_sized buf h = rw (← size) (e.run buf (omega arith))

  marshal_whole : (buf : Bytes) → length buf ≡ n → marshal buf ≡ ok (xs, n)
  marshal_whole buf h =
      let front : length buf - n ≡ 0 = omega arith in
      rw (marshal_sized buf (omega arith), front)
        (ap (λ t. ok (t, n)) (overwrite_all buf xs (omega arith)))

  marshal_to_lem :
      (buf : Bytes)
      → marshal_to n marshal buf ≡ (if leb n (length buf) then ok (xs ++ drop n buf, n) else panic)
  unfolding marshal_to
  marshal_to_lem buf = elim (Bool-cases (leb n (length buf))) [
    | inl g ↦
        let fits : n ≤ length buf = leb→le _ _ g in
        rw (g, slice_front buf n fits, marshal_whole (take n buf) (length-take n buf fits))
    | inr g ↦ rw (g, slice_past buf 0 n (ground arith))
  ]

  marshal_new_lem : marshal_new n marshal ≡ ok xs
  unfolding marshal_new
  marshal_new_lem = rw (
    marshal_whole (replicate n 0) (length-replicate n 0),
    slice_front xs n (omega arith),
    take_all n xs (omega arith),
  )

-- What the methods do for a message whose SizeVT is `n` and whose wire format is `xs`: MarshalToVT
-- writes the format at the start of its buffer, and panics if the buffer is too short; MarshalVT
-- returns the format.
pub record Marshals (marshal : Marshal) (n : ℕ) (xs : Bytes) : Type 0 where
  pub size : length xs ≡ n
  pub to_buffer :
      (buf : Bytes)
      → marshal_to n marshal buf ≡ (if leb n (length buf) then ok (xs ++ drop n buf, n) else panic)
  pub to_new_buffer : marshal_new n marshal ≡ ok xs

marshals :
    {marshal : Marshal} {xs : Bytes}
    → Encodes marshal xs
    → (n : ℕ) → length xs ≡ n
    → Marshals marshal n xs
marshals e n size = record {
  size = size;
  to_buffer = marshal_to_lem e n size;
  to_new_buffer = marshal_new_lem e n size;
}

module _ (v : Varint) where
  -- For an AppInfo, SizeVT is the length of its wire format; MarshalToVT writes the format at
  -- the start of a buffer, and panics if the buffer is too short; MarshalVT returns the format.
  pub app_info-Marshals :
      (m : AppInfo) → Marshals (marshal_app_info v m) (size_app_info v m) (app_info_bytes v m)
  app_info-Marshals m = marshals (app_info-Encodes v m) (size_app_info v m) (length-app_info v m)

  -- For a NatsMessage, SizeVT is the length of its wire format; MarshalToVT writes the format at
  -- the start of a buffer, and panics if the buffer is too short; MarshalVT returns the format.
  pub nats_message-Marshals :
      (m : NatsMessage)
      → Marshals (marshal_nats_message v m) (size_nats_message v m) (nats_message_bytes v m)
  nats_message-Marshals m =
      marshals (nats_message-Encodes v m) (size_nats_message v m) (length-nats_message v m)

  -- For a ZmtpMessage, SizeVT is the length of its wire format; MarshalToVT writes the format at
  -- the start of a buffer, and panics if the buffer is too short; MarshalVT returns the format.
  pub zmtp_message-Marshals :
      (m : ZmtpMessage)
      → Marshals (marshal_zmtp_message v m) (size_zmtp_message v m) (zmtp_message_bytes v m)
  zmtp_message-Marshals m =
      marshals (zmtp_message-Encodes v m) (size_zmtp_message v m) (length-zmtp_message v m)
