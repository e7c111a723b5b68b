-- ===== src/Agent.antt =====
-- sdk/abi_import.go: the functions that the agent provides. The agent is not part of the repository:
-- its state `H` and its functions are parameters. A read gets the length of the buffer, and gives
-- the bytes that it wrote from the buffer's start on and the int that it returned.
pub mod Payload
pub mod Keeps
use deepflow_wasm_go_sdk.Prelude.{
  ℕ, ◌≤◌, ◌≡◌, refl, arith, length, length-append, take-append_self, Bool, false, true, Option,
  none, some, List, [], ◌++◌, take, replicate, ◌==◌,
}
use deepflow_wasm_go_sdk.Prelude.Int.{ℤ, pos, negsuc}
use deepflow_wasm_go_sdk.Log.{Message}
use deepflow_wasm_go_sdk.Go.Result.{Result, ok, err, panic}
use deepflow_wasm_go_sdk.Go.Slices.{Bytes, slice, slice_front}

pub record HostFunctions (H : Type 0) : Type 0 where
  pub wasm_log : H → Message → H
  pub vm_read_ctx_base : H → ℕ → H × Bytes × ℤ
  pub vm_read_payload : H → ℕ → H × Bytes × ℤ
  pub vm_read_http_req_info : H → ℕ → H × Bytes × ℤ
  pub vm_read_http_resp_info : H → ℕ → H × Bytes × ℤ
  pub vm_read_custom_message_info : H → ℕ → H × Bytes × ℤ
  pub host_read_l7_protocol_info : H → Bytes → H × Bool
  pub host_read_str_result : H → Bytes → H × Bool

-- A computation in the plugin's VM over the agent's state; `none` is a run-time panic, which traps.
abbrev pub Vm : Type 0 → Type 0 → Type 0
Vm H A = H → Option (A × H)

module _ {H : Type 0} where
  abbrev pub pure : {A : Type 0} → A → Vm H A
  pure a h = some (a, h)

  abbrev pub resume : {A B : Type 0} → (A → Vm H B) → Option (A × H) → Option (B × H)
  resume f none = none
  resume f (some (a, h)) = f a h

  infixl 5 ◌>>=◌ ◌>>◌
  abbrev pub ◌>>=◌ : {A B : Type 0} → Vm H A → (A → Vm H B) → Vm H B
  ◌>>=◌ m f h = resume f (m h)

  abbrev pub ◌>>◌ : {A B : Type 0} → Vm H A → Vm H B → Vm H B
  m >> k = m >>= λ _. k

  -- A panic, where there is no value.
  abbrev pub or_trap : {A : Type 0} → Option A → Vm H A
  or_trap none h = none
  or_trap (some a) h = some (a, h)

  -- A panic of Go, where there is a result of Go.
  abbrev pub or_panic : {A : Type 0} → Result A → Vm H A
  or_panic (ok a) h = some (a, h)
  or_panic (err m) h = none
  or_panic panic h = none

  -- `[:size]` of a buffer; a negative size panics.
  unfoldable pub front : Bytes → ℤ → Vm H Bytes
  front buf (pos n) = or_panic (slice buf 0 n)
  front buf (negsuc n) = or_panic panic

  pub front_fits :
      (buf : Bytes) (n : ℕ) (h : H) → n ≤ length buf → front buf (pos n) h ≡ some (take n buf, h)
  unfolding front
  front_fits buf n h k = rw (slice_front buf n k)

  pub front_whole :
      (xs rest : Bytes) (h : H) → front (xs ++ rest) (pos (length xs)) h ≡ some (xs, h)
  unfolding front
  front_whole xs rest h = rw (
    slice_front (xs ++ rest) (length xs) (omega (arith, length-append xs rest)),
    take-append_self xs rest (length xs) refl,
  )

module _ {H : Type 0} (host : HostFunctions H) where
  open host use {wasm_log}

  -- Error, Warn and Info
  unfoldable pub log : Message → Vm H (Unit {0})
  log m h = some (tt, wasm_log h m)

  -- A call that logs and returns nil, or returns a value, or panics.
  unfoldable pub call : {A : Type 0} → Result A → Vm H (Option A)
  call (ok a) h = some (some a, h)
  call (err none) h = some (none, h)
  call (err (some m)) h = some (none, wasm_log h m)
  call panic h = none

  -- A buffer of `n` zero bytes after a read into it, and what the read returned.
  unfoldable pub read_into : (H → ℕ → H × Bytes × ℤ) → ℕ → Vm H (Bytes × ℤ)
  read_into read n h =
      let (h', written, size) = read h n in some ((take n (written ++ replicate n 0), size), h')

abbrev pub is_zero : ℤ → Bool
is_zero (pos n) = n == 0
is_zero (negsuc n) = false
