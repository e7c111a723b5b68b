-- ===== src/Pb/Varint.antt =====
-- The varints of github.com/planetscale/vtprotobuf/protohelpers, which the repository does not hold:
-- a parameter of the model, with what its documentation says of the two functions.
use deepflow_wasm_go_sdk.Prelude.{ℕ, ◌-◌, ◌≤◌, ◌≡◌, length}
use deepflow_wasm_go_sdk.Go.Result.{Result, ok}
use deepflow_wasm_go_sdk.Go.Slices.{Bytes}
use deepflow_wasm_go_sdk.Go.Copy.{overwrite}

-- `varint v` is the encoding of `v`. EncodeVarint(dAtA, offset, v) writes it so that it ends at the
-- offset, and returns where it begins; SizeOfVarint is its length.
pub record Varint : Type 0 where
  pub size_of_varint : ℕ → ℕ
  pub encode_varint : Bytes → ℕ → ℕ → Result (Bytes × ℕ)
  pub varint : ℕ → Bytes
  pub length-varint : (v : ℕ) → length (varint v) ≡ size_of_varint v
  pub encode_varint_lem :
      (buf : Bytes) (i v : ℕ)
      → length (varint v) ≤ i
      → i ≤ length buf
      → encode_varint buf i v
        ≡ ok (overwrite buf (i - length (varint v)) (varint v), i - length (varint v))
