-- ===== src/Abi/Bounds.antt =====
-- sdk/abi_export.go: what the agent gets is bounded, whatever it writes and whatever the plugin does. The
-- bounds are those under which HostKeeps has the agent's functions keep a predicate.
use deepflow_wasm_go_sdk.Prelude.{
  ℕ, ◌≤◌, ◌≡◌, ◌⊎◌, inl, inr, refl, ap, Bool-cases, Option, none, some, List, [], ◌∷◌, map, leb,
  leb→le, length, replicate,
}
use deepflow_wasm_go_sdk.Go.Result.{
  Result, ok, err, panic, OnOk, holds, rejected, panicked, OnOk-then,
}
use deepflow_wasm_go_sdk.Go.Slices.{Bytes}
use deepflow_wasm_go_sdk.Host.{L7ProtocolInfo, page_size}
use deepflow_wasm_go_sdk.Serde.L7Info.{
  serialize_l7_protocol_info, serialize_into, serialize_infos, serialize_info,
}
use deepflow_wasm_go_sdk.Serde.L7Info.Frames.{frames, serialize_l7_protocol_info_lem}
use deepflow_wasm_go_sdk.Pb.Varint.{Varint}

-- A list of results has a nil pointer among them, or none.
data HasNil : List (Option L7ProtocolInfo) → Type 0 where
  here : {infos : List (Option L7ProtocolInfo)} → HasNil (none ∷ infos)
  later :
      {i : L7ProtocolInfo} {infos : List (Option L7ProtocolInfo)}
      → HasNil infos
      → HasNil (some i ∷ infos)

nil_cases :
    (infos : List (Option L7ProtocolInfo))
    → HasNil infos ⊎ ((is : List L7ProtocolInfo) × (infos ≡ map some is))
nil_cases [] = inr ([], refl)
nil_cases (none ∷ infos) = inl here
nil_cases (some i ∷ infos) = elim (nil_cases infos) [
  | inl h ↦ inl (later h)
  | inr (is, e) ↦ inr (i ∷ is, ap (λ t. some i ∷ t) e)
]

OnOk-any : {A : Type 0} (r : Result A) → OnOk (λ _. Unit {0}) r
OnOk-any (ok a) = holds tt
OnOk-any (err m) = rejected
OnOk-any panic = panicked

module _ (v : Varint) (direction : ℕ) where
  serialize_infos-HasNil :
      (infos : List (Option L7ProtocolInfo)) (buf : Bytes) (off : ℕ)
      → HasNil infos
      → OnOk (λ _. ⊥) (serialize_infos v infos direction buf off)
  unfolding serialize_infos
  serialize_infos-HasNil [] buf off h = elim h [ ]
  serialize_infos-HasNil (none ∷ infos) buf off h = panicked
  serialize_infos-HasNil (some i ∷ infos) buf off (later h) =
      OnOk-then (OnOk-any (serialize_info v i direction buf off))
        λ s u. serialize_infos-HasNil infos s.0 s.1 h

  -- Where serializeL7ProtocolInfo returns bytes, they fit a page.
  pub serialize_l7_protocol_info-OnOk :
      (infos : List (Option L7ProtocolInfo))
      → OnOk (λ bytes. length bytes ≤ page_size) (serialize_l7_protocol_info v infos direction)
  serialize_l7_protocol_info-OnOk infos = elim (nil_cases infos) [
    | inl h ↦
        unfold serialize_l7_protocol_info serialize_into in
        OnOk-then (serialize_infos-HasNil infos (replicate page_size 0) 0 h) (λ s f. absurd f)
    | inr (is, e) ↦
        rw (e, serialize_l7_protocol_info_lem v direction is)
          (elim (Bool-cases (leb (length (frames v direction is)) page_size)) [
            | inl b ↦ rw b (holds (leb→le (length (frames v direction is)) page_size b))
            | inr b ↦ rw b rejected
          ])
  ]
