-- ===== src/Plugin/Stateful.antt =====
-- The global state of a plugin, beside that of the agent.
use deepflow_wasm_go_sdk.Prelude.{ℕ, Option}
use deepflow_wasm_go_sdk.Prelude.Int.{ℤ}
use deepflow_wasm_go_sdk.Go.Slices.{Bytes}
use deepflow_wasm_go_sdk.Agent.{HostFunctions, Vm}

module _ {H S : Type 0} where
  abbrev beside_read : (H → ℕ → H × Bytes × ℤ) → H × S → ℕ → (H × S) × Bytes × ℤ
  beside_read read (h, s) n = let (h', written, size) = read h n in ((h', s), written, size)

  abbrev beside_write : {B : Type 0} → (H → Bytes → H × B) → H × S → Bytes → (H × S) × B
  beside_write write (h, s) bs = let (h', done) = write h bs in ((h', s), done)

  -- The functions of the agent, which leave the plugin's state as it is.
  abbrev pub beside : HostFunctions H → HostFunctions (H × S)
  beside host = record {
    wasm_log = λ x m. (host.wasm_log x.0 m, x.1);
    vm_read_ctx_base = beside_read host.vm_read_ctx_base;
    vm_read_payload = beside_read host.vm_read_payload;
    vm_read_http_req_info = beside_read host.vm_read_http_req_info;
    vm_read_http_resp_info = beside_read host.vm_read_http_resp_info;
    vm_read_custom_message_info = beside_read host.vm_read_custom_message_info;
    host_read_l7_protocol_info = beside_write host.host_read_l7_protocol_info;
    host_read_str_result = beside_write host.host_read_str_result;
  }

  abbrev pub state : Vm (H × S) S
  state (h, s) = Option.some (s, (h, s))

  abbrev pub set_state : S → Vm (H × S) (Unit {0})
  set_state s' (h, s) = Option.some (tt, (h, s'))
