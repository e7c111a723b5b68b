-- ===== src/Agent/Keeps.antt =====
-- Predicates on the agent's state that computations keep, with a rule for each way to build one.
use deepflow_wasm_go_sdk.Prelude.{
  ℕ, ◌≤◌, Bool, true, false, Option, none, some, length, if◌then◌else◌,
}
use deepflow_wasm_go_sdk.Prelude.Int.{ℤ, pos, negsuc}
use deepflow_wasm_go_sdk.Log.{Message}
use deepflow_wasm_go_sdk.Go.Result.{Result, ok, err, panic}
use deepflow_wasm_go_sdk.Go.Slices.{Bytes, slice}
use deepflow_wasm_go_sdk.Host.{page_size}
use deepflow_wasm_go_sdk.Agent.{
  HostFunctions, Vm, pure, resume, ◌>>=◌, or_trap, or_panic, front, log, call, read_into,
}

-- `P` holds of the state behind a computation; of a panic nothing is said.
abbrev pub Behind : {H A : Type 0} → (H → Type 0) → Option (A × H) → Type 0
Behind P none = Unit {0}
Behind P (some (a, h)) = P h

pub record Keeps {H A : Type 0} (P : H → Type 0) (m : Vm H A) : Type 0 where
  pub at : (h : H) → P h → Behind P (m h)

module _ {H : Type 0} {P : H → Type 0} where
  pub Keeps-pure : {A : Type 0} (a : A) → Keeps P (pure a)
  Keeps-pure a = record { at = λ h p. p }

  pub Keeps-trap : {A : Type 0} → Keeps {A = A} P (λ h. none)
  Keeps-trap = record { at = λ h p. tt }

  pub Keeps-or_trap : {A : Type 0} (o : Option A) → Keeps P (or_trap o)
  Keeps-or_trap none = record { at = λ h p. tt }
  Keeps-or_trap (some a) = record { at = λ h p. p }

  pub Keeps-or_panic : {A : Type 0} (r : Result A) → Keeps P (or_panic r)
  Keeps-or_panic (ok a) = record { at = λ h p. p }
  Keeps-or_panic (err m) = record { at = λ h p. tt }
  Keeps-or_panic panic = record { at = λ h p. tt }

  pub Keeps-front : (buf : Bytes) (z : ℤ) → Keeps P (front buf z)
  unfolding front
  Keeps-front buf (pos n) = Keeps-or_panic (slice buf 0 n)
  Keeps-front buf (negsuc n) = Keeps-trap

  pub Keeps-if :
      {A : Type 0} (b : Bool) (m n : Vm H A) → Keeps P m → Keeps P n → Keeps P (if b then m else n)
  Keeps-if true m n km kn = km
  Keeps-if false m n km kn = kn

  behind :
      {A B : Type 0} (r : Option (A × H)) (f : A → Vm H B)
      → Behind P r
      → ((a : A) → Keeps P (f a))
      → Behind P (resume f r)
  behind none f p kf = tt
  behind (some (a, h)) f p kf = (kf a).at h p

  pub Keeps-bind :
      {A B : Type 0} (m : Vm H A) (f : A → Vm H B)
      → Keeps P m
      → ((a : A) → Keeps P (f a))
      → Keeps P (m >>= f)
  Keeps-bind m f km kf = record { at = λ h p. behind (m h) f (km.at h p) kf }

-- The agent's functions keep `P`: the reads of buffers of at most a page, the log, and the two that take
-- a buffer, where it has the sizes that the SDK gives them.
pub record HostKeeps {H : Type 0} (P : H → Type 0) (host : HostFunctions H) : Type 0 where
  pub wasm_log : (h : H) (m : Message) → P h → P (host.wasm_log h m)
  pub vm_read_ctx_base : (h : H) (n : ℕ) → n ≤ page_size → P h → P (host.vm_read_ctx_base h n).0
  pub vm_read_payload : (h : H) (n : ℕ) → P h → P (host.vm_read_payload h n).0
  pub vm_read_http_req_info :
      (h : H) (n : ℕ) → n ≤ page_size → P h → P (host.vm_read_http_req_info h n).0
  pub vm_read_http_resp_info :
      (h : H) (n : ℕ) → n ≤ page_size → P h → P (host.vm_read_http_resp_info h n).0
  pub vm_read_custom_message_info :
      (h : H) (n : ℕ) → n ≤ page_size → P h → P (host.vm_read_custom_message_info h n).0
  pub host_read_l7_protocol_info :
      (h : H) (b : Bytes)
      → 1 ≤ length b
      → length b ≤ page_size
      → P h
      → P (host.host_read_l7_protocol_info h b).0
  pub host_read_str_result :
      (h : H) (b : Bytes) → 2 ≤ length b → length b ≤ 18 → P h → P (host.host_read_str_result h b).0

module _ {H : Type 0} {P : H → Type 0} (host : HostFunctions H) (k : HostKeeps P host) where
  pub Keeps-log : (m : Message) → Keeps P (log host m)
  unfolding log
  Keeps-log m = record { at = λ h p. k.wasm_log h m p }

  pub Keeps-call : {A : Type 0} (r : Result A) → Keeps P (call host r)
  unfolding call
  Keeps-call (ok a) = record { at = λ h p. p }
  Keeps-call (err none) = record { at = λ h p. p }
  Keeps-call (err (some m)) = record { at = λ h p. k.wasm_log h m p }
  Keeps-call panic = record { at = λ h p. tt }

  pub Keeps-read_into :
      (read : H → ℕ → H × Bytes × ℤ) (n : ℕ)
      → ((h : H) → P h → P (read h n).0)
      → Keeps P (read_into host read n)
  unfolding read_into
  Keeps-read_into read n f = record { at = f }
