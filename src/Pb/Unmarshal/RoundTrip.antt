-- ===== src/Pb/Unmarshal/RoundTrip.antt =====
-- What the MarshalVT methods write is read back by UnmarshalVT.
use deepflow_wasm_go_sdk.Prelude.{
  ℕ, zero, suc, ◌+◌, ◌*◌, ◌^◌, ◌≤◌, ◌<◌, ◌≡◌, ◌≢◌, lt→ltb, refl, sym, ap, ◌∙◌, Option, none, some,
  [], ◌∷◌, ◌++◌, append_assoc, arith, length, length-append,
}
use deepflow_wasm_go_sdk.Go.Slices.{Bytes}
use deepflow_wasm_go_sdk.Pb.Varint.{Varint}
use deepflow_wasm_go_sdk.Pb.Writer.{option_bytes}
use deepflow_wasm_go_sdk.Pb.Messages.{NatsMessage, ZmtpMessage}
use deepflow_wasm_go_sdk.Pb.Format.{
  tag1, str_bytes, nonempty_bytes, nats_message_bytes, zmtp_message_bytes,
}
use deepflow_wasm_go_sdk.Pb.Unmarshal.{
  Skip, Fields, rounds, unmarshal, nats_fields, zmtp_fields, unmarshal_nats_message,
  unmarshal_zmtp_message,
}
use deepflow_wasm_go_sdk.Pb.Unmarshal.Field.{IsBase128, varint_groups, round-field}

nonempty_some :
    (v : Varint) (tag : Bytes) (x : ℕ) (str : Bytes)
    → nonempty_bytes v tag (x ∷ str) ≡ str_bytes v tag (x ∷ str)
unfolding nonempty_bytes
nonempty_some v tag x str = rw (lt→ltb 0 (length (x ∷ str)) (omega arith))

module _ {M : Type 0} (v : Varint) (base : IsBase128 v) (s : Skip) (d : Fields M) where
  open d use {field}

  -- What the rounds come to behind a field that is left out where it is empty.
  record Behind (l fuel : ℕ) (bytes rest : Bytes) (m m' : M) : Type 0 where
    left : ℕ
    enough : length rest ≤ left
    same : rounds s d l fuel bytes m ≡ rounds s d l left rest m'

  str-Behind :
      (l fuel t num : ℕ) (str rest : Bytes) (m : M) (f : Bytes → M → M)
      → t ≡ num * 8 + 2
      → t < 128
      → num ≢ 0
      → field num ≡ some f
      → length (str_bytes v (tag1 t) str ++ rest) ≤ fuel
      → length (str_bytes v (tag1 t) str ++ rest) ≤ l
      → l < 2 ^ 31
      → Behind l fuel (str_bytes v (tag1 t) str ++ rest) rest m (f str m)
  unfolding rounds
  str-Behind l zero t num str rest m f e small nz found h fits hl = absurd (omega arith)
  str-Behind l (suc fuel) t num str rest m f e small nz found h fits hl =
      let n : ℕ = length str in
      let written : v.varint n ≡ varint_groups n =
        base n
          (omega (arith, length-append (v.varint n ++ str) rest, length-append (v.varint n) str)) in
      let split = append_assoc (v.varint n) str rest in
      let len = length-append (v.varint n ++ str) rest in
      let body = length-append (v.varint n) str in
      let inside : length (str ++ rest) ≤ l = omega (arith, length-append str rest) in
      record {
        left = fuel;
        enough = omega arith;
        same = rw (split, written, round-field s d l t num str rest m f e small nz found inside hl);
      }

  nonempty-Behind :
      (l fuel t num : ℕ) (str rest : Bytes) (m : M) (f : Bytes → M → M)
      → t ≡ num * 8 + 2
      → t < 128
      → num ≢ 0
      → field num ≡ some f
      → f [] m ≡ m
      → length (nonempty_bytes v (tag1 t) str ++ rest) ≤ fuel
      → length (nonempty_bytes v (tag1 t) str ++ rest) ≤ l
      → l < 2 ^ 31
      → Behind l fuel (nonempty_bytes v (tag1 t) str ++ rest) rest m (f str m)
  unfolding nonempty_bytes
  nonempty-Behind l fuel t num [] rest m f e small nz found unset h fits hl = record {
    left = fuel;
    enough = h;
    same = rw unset refl;
  }
  nonempty-Behind l fuel t num (x ∷ str) rest m f e small nz found unset h fits hl =
      let there = nonempty_some v (tag1 t) x str in
      rw there (
        str-Behind l fuel t num (x ∷ str) rest m f e small nz found (rw there at h)
          (rw there at fits) hl)

rounds_done :
    {M : Type 0} (s : Skip) (d : Fields M) (l fuel : ℕ) (bs : Bytes) (m : M)
    → bs ≡ []
    → rounds s d l fuel bs m ≡ some (m, none)
unfolding rounds
rounds_done s d l zero bs m e = rw e
rounds_done s d l (suc fuel) bs m e = rw e

pattern_read :
    (v : Varint) (base : IsBase128 v) (s : Skip) (l fuel : ℕ) (o : Option Bytes) (rest : Bytes)
    (m : ZmtpMessage)
    → m.match_pattern ≡ none
    → length (option_bytes (str_bytes v (tag1 0xa)) o ++ rest) ≤ fuel
    → length (option_bytes (str_bytes v (tag1 0xa)) o ++ rest) ≤ l
    → l < 2 ^ 31
    → rest ≡ []
    → rounds s zmtp_fields l fuel (option_bytes (str_bytes v (tag1 0xa)) o ++ rest) m
      ≡ some (record m { match_pattern = o }, none)
pattern_read v base s l fuel none rest m unset h fits hl done =
    rounds_done s zmtp_fields l fuel rest m done
    ∙ ap (λ (o : Option Bytes). some (record m { match_pattern = o }, none)) unset
pattern_read v base s l fuel (some str) rest m unset h fits hl done =
    let one =
      str-Behind v base s zmtp_fields l fuel 0xa 1 str rest m
        (λ str m. record m { match_pattern = some str }) refl (omega arith) (omega arith) refl h
        fits hl in
    one.same
    ∙ rounds_done s zmtp_fields l one.left rest (record m { match_pattern = some str }) done

abbrev pub empty_zmtp_message : ZmtpMessage
empty_zmtp_message = record { match_pattern = none; payload = []; unknown_fields = [] }

abbrev pub empty_nats_message : NatsMessage
empty_nats_message = record { subject = []; reply_to = []; payload = []; unknown_fields = [] }

module _ (v : Varint) (base : IsBase128 v) (s : Skip) where
  -- What MarshalVT writes for a NatsMessage without unknown fields is read back by UnmarshalVT.
  pub unmarshal-nats_message_bytes :
      (m : NatsMessage)
      → m.unknown_fields ≡ []
      → length (nats_message_bytes v m) < 2 ^ 31
      → unmarshal_nats_message s (nats_message_bytes v m) empty_nats_message ≡ some (m, none)
  unfolding unmarshal_nats_message unmarshal nats_message_bytes
  unmarshal-nats_message_bytes m none_unknown hl =
      let l : ℕ = length (nats_message_bytes v m) in
      let third = nonempty_bytes v (tag1 0x1a) m.payload ++ m.unknown_fields in
      let second = nonempty_bytes v (tag1 0x12) m.reply_to ++ third in
      let whole = length-append (nonempty_bytes v (tag1 0xa) m.subject) second in
      let tail = length-append (nonempty_bytes v (tag1 0x12) m.reply_to) third in
      let m1 = record empty_nats_message { subject = m.subject } in
      let m2 = record m1 { reply_to = m.reply_to } in
      let one =
        nonempty-Behind v base s nats_fields l l 0xa 1 m.subject second empty_nats_message
          (λ str m. record m { subject = str }) refl (omega arith) (omega arith) refl refl
          (omega arith) (omega arith) hl in
      let two =
        nonempty-Behind v base s nats_fields l one.left 0x12 2 m.reply_to third m1
          (λ str m. record m { reply_to = str }) refl (omega arith) (omega arith) refl refl
          one.enough (omega arith) hl in
      let three =
        nonempty-Behind v base s nats_fields l two.left 0x1a 3 m.payload m.unknown_fields m2
          (λ str m. record m { payload = str }) refl (omega arith) (omega arith) refl refl
          two.enough (omega arith) hl in
      one.same
      ∙ two.same
      ∙ three.same
      ∙ rounds_done s nats_fields l three.left m.unknown_fields (record m { unknown_fields = [] })
          none_unknown
      ∙ ap (λ (u : Bytes). some (record m { unknown_fields = u }, none)) (sym none_unknown)

  -- What MarshalVT writes for a ZmtpMessage without unknown fields is read back by UnmarshalVT.
  pub unmarshal-zmtp_message_bytes :
      (m : ZmtpMessage)
      → m.unknown_fields ≡ []
      → length (zmtp_message_bytes v m) < 2 ^ 31
      → unmarshal_zmtp_message s (zmtp_message_bytes v m) empty_zmtp_message ≡ some (m, none)
  unfolding unmarshal_zmtp_message unmarshal zmtp_message_bytes
  unmarshal-zmtp_message_bytes m none_unknown hl =
      let l : ℕ = length (zmtp_message_bytes v m) in
      let second = option_bytes (str_bytes v (tag1 0xa)) m.match_pattern ++ m.unknown_fields in
      let whole = length-append (nonempty_bytes v (tag1 0x12) m.payload) second in
      let m1 = record empty_zmtp_message { payload = m.payload } in
      let one =
        nonempty-Behind v base s zmtp_fields l l 0x12 2 m.payload second empty_zmtp_message
          (λ str m. record m { payload = str }) refl (omega arith) (omega arith) refl refl
          (omega arith) (omega arith) hl in
      one.same
      ∙ pattern_read v base s l one.left m.match_pattern m.unknown_fields m1 refl one.enough
          (omega arith) hl none_unknown
      ∙ ap (λ (u : Bytes). some (record m { unknown_fields = u }, none)) (sym none_unknown)
