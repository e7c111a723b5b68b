-- ===== src/Serde/L7Info/Split.antt =====
-- The frames that serializeL7ProtocolInfo writes can be told apart by their length fields.
use deepflow_wasm_go_sdk.Prelude.{
  ℕ, zero, suc, ◌+◌, ◌-◌, ◌/◌, ◌%◌, ◌^◌, ◌≤◌, ◌<◌, ◌≡◌, refl, sym, ◌∙◌, ◌&&◌, Bool-cases, inl, inr,
  Option, none, some, List, [], ◌∷◌, ◌++◌, map, arith, leb, leb→le, le→leb, ◌==◌, if◌then◌else◌,
  length, take, drop, take-append_self, drop-append_self, length-append,
}
use mathlib.Core.Option
use deepflow_wasm_go_sdk.Log.{l7_info_too_large}
use deepflow_wasm_go_sdk.Go.Result.{ok, err}
use deepflow_wasm_go_sdk.Go.Slices.{Bytes}
use deepflow_wasm_go_sdk.Go.Binary.{be16, put_uint16}
use deepflow_wasm_go_sdk.Host.{L7ProtocolInfo, page_size}
use deepflow_wasm_go_sdk.Pb.Varint.{Varint}
use deepflow_wasm_go_sdk.Pb.Format.{app_info_bytes}
use deepflow_wasm_go_sdk.Serde.L7Info.{magic, serialize_l7_protocol_info}
use deepflow_wasm_go_sdk.Serde.L7Info.Message.{to_app_info}
use deepflow_wasm_go_sdk.Serde.L7Info.Frames.{frame, frames, serialize_l7_protocol_info_lem}

-- The messages of `k` frames, if the bytes are `k` frames and nothing more. A frame is a length of two
-- bytes, and as many bytes as that says: the magic and a message.
unfoldable pub split : ℕ → Bytes → Option (List Bytes)
split zero [] = some []
split (suc k) (a ∷ b ∷ p ∷ q ∷ rest) =
    let n = be16 a b - 2 in
    let later = split k (drop n rest) in
    if leb 2 (be16 a b) && (p == 0x50 && (q == 0x42 && leb n (length rest)))
    then Option.map (λ xs. take n rest ∷ xs) later
    else none
split _ _ = none

split_frame :
    (k : ℕ) (body rest : Bytes)
    → length body + 2 < 2 ^ 16
    → split (suc k) ((put_uint16 ((length body + 2) % 2 ^ 16) ++ (magic ++ body)) ++ rest)
      ≡ Option.map (λ xs. body ∷ xs) (split k rest)
unfolding split
split_frame k body rest h =
    let n : ℕ = length body in
    let small : (n + 2) % 2 ^ 16 ≡ n + 2 = omega arith in
    let field : be16 ((n + 2) / 256 % 256) ((n + 2) % 256) ≡ n + 2 = omega arith in
    let size : n + 2 - 2 ≡ n = omega arith in
    let fits : n ≤ length (body ++ rest) = omega (arith, length-append body rest) in
    rw (
      small,
      field,
      size,
      le→leb 2 (n + 2) (omega arith),
      le→leb n (length (body ++ rest)) fits,
      take-append_self body rest n refl,
      drop-append_self body rest n refl,
    )

module _ (v : Varint) (direction : ℕ) where
  abbrev pub bodies : List L7ProtocolInfo → List Bytes
  bodies infos = map (λ i. app_info_bytes v (to_app_info i direction)) infos

  split-frames :
      (infos : List L7ProtocolInfo)
      → length (frames v direction infos) ≤ page_size
      → split (length infos) (frames v direction infos) ≡ some (bodies infos)
  unfolding frames frame split
  split-frames [] h = refl
  split-frames (i ∷ infos) h =
      let body : Bytes = app_info_bytes v (to_app_info i direction) in
      let len = length-append (frame v direction i) (frames v direction infos) in
      split_frame (length infos) body (frames v direction infos) (omega arith)
      ∙ rw (split-frames infos (omega arith)) refl

  -- What serializeL7ProtocolInfo returns for results is split by the length fields into the messages
  -- of the results, in order: no length field wraps around.
  pub split-serialize :
      (infos : List L7ProtocolInfo) (payload : Bytes)
      → serialize_l7_protocol_info v (map some infos) direction ≡ ok payload
      → split (length infos) payload ≡ some (bodies infos)
  split-serialize infos payload e =
      elim (Bool-cases (leb (length (frames v direction infos)) page_size)) [
        | inl g ↦
            let same : ok payload ≡ ok (frames v direction infos) =
              sym e ∙ serialize_l7_protocol_info_lem v direction infos ∙ rw g refl in
            let out : payload ≡ frames v direction infos = cc in
            rw out (split-frames infos (leb→le _ _ g))
        | inr g ↦
            let clash : ok payload ≡ err (some l7_info_too_large) =
              sym e ∙ serialize_l7_protocol_info_lem v direction infos ∙ rw g refl in
            absurd (cc)
      ]
