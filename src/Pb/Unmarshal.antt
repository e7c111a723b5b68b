-- ===== src/Pb/Unmarshal.antt =====
-- sdk/pb/WasmPluginApi_vtproto.pb.go: the UnmarshalVT methods of the messages whose fields are all
-- strings or bytes. `dAtA` from `iNdEx` on is a list of bytes, so that `iNdEx` is what it is shorter by
-- than the `l` bytes of `dAtA`. An int has 32 bits, as in TinyGo's WebAssembly.
pub mod Total
pub mod Field
pub mod RoundTrip
use deepflow_wasm_go_sdk.Prelude.{
  ℕ, zero, suc, ◌+◌, ◌-◌, ◌*◌, ◌/◌, ◌%◌, ◌^◌, ◌≢◌, ◌≡◌, ◌||◌, Option, none, some, List, [], ◌∷◌,
  ◌++◌, ltb, leb, ◌==◌, if◌then◌else◌, length, take, drop,
}
use deepflow_wasm_go_sdk.Prelude.Int.{ℤ, pos, negsuc}
use deepflow_wasm_go_sdk.Go.Slices.{Bytes}
use deepflow_wasm_go_sdk.Pb.Messages.{NatsMessage, ZmtpMessage, KeyVal}

pub data PbError : Type 0 where
  int_overflow unexpected_eof end_group illegal_tag wrong_wire_type invalid_length : PbError
  bad_record : Bytes → PbError

-- protohelpers.Skip, which the repository does not hold: the length of the first record, or an error.
-- A record has a tag, so that it is not empty.
pub record Skip : Type 0 where
  pub skip : Bytes → Option ℤ
  pub skip_some : (bs : Bytes) (n : ℕ) → skip bs ≡ some (pos n) → n ≢ 0

-- What was read, and the bytes behind it.
pub data Read (A : Type 0) : Type 0 where
  got : A → Bytes → Read A
  bad : PbError → Read A

abbrev pub add_group : ℕ → Read ℕ → Read ℕ
add_group b (got v rest) = got (b % 128 + 128 * v) rest
add_group b (bad e) = bad e

-- for shift := uint(0); ; shift += 7, with `k` rounds to go until shift is 64 or more. The groups of
-- seven bits do not overlap, so that `|=` adds them.
unfoldable pub read_groups : ℕ → Bytes → Read ℕ
read_groups zero bs = bad int_overflow
read_groups (suc k) [] = bad unexpected_eof
read_groups (suc k) (b ∷ bs) =
    let more = add_group b (read_groups k bs) in if ltb b 128 then got b bs else more

-- The length in front of a string or bytes, and as many bytes; `off` is iNdEx behind the length.
unfoldable pub take_counted : ℕ → Read ℕ → Read Bytes
take_counted l (bad e) = bad e
take_counted l (got v rest) =
    let n = v % 2 ^ 32 in
    let off = l - length rest in
    if leb (2 ^ 31) n || leb (2 ^ 31) (off + n)
    then bad invalid_length
    else if ltb l (off + n)
    then bad unexpected_eof
    else got (take n rest) (drop n rest)

-- A round of the loop: the message and the bytes that are left, or the error that is returned.
pub data Round (M : Type 0) : Type 0 where
  go_on : M → Bytes → Round M
  stop : PbError → Round M

-- A message type: what a field does with its bytes, and what the unknown fields do.
pub record Fields (M : Type 0) : Type 0 where
  pub field : ℕ → Option (Bytes → M → M)
  pub unknown : Bytes → M → M

module _ {M : Type 0} where
  abbrev pub set_field : (Bytes → M → M) → M → Read Bytes → Round M
  set_field f m (got s rest) = go_on (f s m) rest
  set_field f m (bad e) = stop e

  -- case fieldNum
  abbrev pub known : ℕ → (Bytes → M → M) → ℕ → Bytes → M → Round M
  known l f wire_type rest m =
      if wire_type == 2
      then set_field f m (take_counted l (read_groups 10 rest))
      else stop wrong_wire_type

  -- default: `bs` are the bytes from preIndex on
  abbrev pub skipped : ℕ → (Bytes → M → M) → Option ℤ → Bytes → M → Round M
  skipped l f none bs m = stop (bad_record bs)
  skipped l f (some (negsuc n)) bs m = stop invalid_length
  skipped l f (some (pos n)) bs m =
      let off = l - length bs in
      if leb (2 ^ 31) (off + n)
      then stop invalid_length
      else if ltb l (off + n)
      then stop unexpected_eof
      else go_on (f (take n bs) m) (drop n bs)

  -- What is done behind a round.
  abbrev pub follow :
      M → Round M → (Bytes → M → Option (M × Option PbError)) → Option (M × Option PbError)
  follow m (stop e) k = some (m, some e)
  follow m (go_on m' rest) k = k rest m'

module _ {M : Type 0} (s : Skip) (d : Fields M) where
  open s use {skip}
  open d use {field, unknown}

  abbrev pub dispatch : ℕ → ℕ → ℕ → Bytes → Bytes → M → Option (Bytes → M → M) → Round M
  dispatch l field_num wire_type rest bs m (some f) = known l f wire_type rest m
  dispatch l field_num wire_type rest bs m none = skipped l unknown (skip bs) bs m

  -- `wire` is a uint64, and fieldNum is the int32 of its upper bits.
  abbrev pub round_tag : ℕ → Read ℕ → Bytes → M → Round M
  round_tag l (bad e) bs m = stop e
  round_tag l (got w rest) bs m =
      let wire = w % 2 ^ 64 in
      let field_num = wire / 8 % 2 ^ 32 in
      let wire_type = wire % 8 in
      if wire_type == 4
      then stop end_group
      else if field_num == 0 || leb (2 ^ 31) field_num
      then stop illegal_tag
      else dispatch l field_num wire_type rest bs m (field field_num)

  unfoldable pub round : ℕ → Bytes → M → Round M
  round l bs m = round_tag l (read_groups 10 bs) bs m

  -- for iNdEx < l, with fuel: none is a loop that has not ended. The message is the one that the
  -- fields read so far have made, also where there is an error.
  unfoldable pub rounds : ℕ → ℕ → Bytes → M → Option (M × Option PbError)
  rounds l fuel [] m = some (m, none)
  rounds l zero (b ∷ bs) m = none
  rounds l (suc fuel) (b ∷ bs) m = follow m (round l (b ∷ bs) m) (rounds l fuel)

  -- Each round takes at least a byte.
  unfoldable pub unmarshal : Bytes → M → Option (M × Option PbError)
  unmarshal bs m = rounds (length bs) (length bs) bs m

abbrev pub nats_fields : Fields NatsMessage
nats_fields = record {
  field = λ n.
      if n == 1
      then some (λ s m. record m { subject = s })
      else if n == 2
      then some (λ s m. record m { reply_to = s })
      else if n == 3
      then some (λ s m. record m { payload = s })
      else none;
  unknown = λ s m. record m { unknown_fields = m.unknown_fields ++ s };
}

abbrev pub zmtp_fields : Fields ZmtpMessage
zmtp_fields = record {
  field = λ n.
      if n == 1
      then some (λ s m. record m { match_pattern = some s })
      else if n == 2
      then some (λ s m. record m { payload = s })
      else none;
  unknown = λ s m. record m { unknown_fields = m.unknown_fields ++ s };
}

abbrev pub key_val_fields : Fields KeyVal
key_val_fields = record {
  field = λ n.
      if n == 1
      then some (λ s m. record m { key = s })
      else if n == 2
      then some (λ s m. record m { val = s })
      else none;
  unknown = λ s m. record m { unknown_fields = m.unknown_fields ++ s };
}

module _ (s : Skip) where
  unfoldable pub unmarshal_nats_message :
      Bytes → NatsMessage → Option (NatsMessage × Option PbError)
  unmarshal_nats_message = unmarshal s nats_fields

  unfoldable pub unmarshal_zmtp_message :
      Bytes → ZmtpMessage → Option (ZmtpMessage × Option PbError)
  unmarshal_zmtp_message = unmarshal s zmtp_fields

  unfoldable pub unmarshal_key_val : Bytes → KeyVal → Option (KeyVal × Option PbError)
  unmarshal_key_val = unmarshal s key_val_fields
