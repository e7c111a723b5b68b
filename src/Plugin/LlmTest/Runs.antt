-- ===== src/Plugin/LlmTest/Runs.antt =====
-- Computations of llm.go and llm-test.go with the same effect on the streams, with a rule for each way to build one.
use deepflow_wasm_go_sdk.Prelude.{ℕ, Bool, true, false, Option, none, some, if◌then◌else◌}
use deepflow_wasm_go_sdk.Log.{Message}
use deepflow_wasm_go_sdk.Host.{ParseCtx}
use deepflow_wasm_go_sdk.Agent.{HostFunctions, Vm, pure, ◌>>◌, log}
use deepflow_wasm_go_sdk.Parser.Action.{Action}
use deepflow_wasm_go_sdk.Plugin.{one_info}
use deepflow_wasm_go_sdk.Plugin.Stateful.{beside}
use deepflow_wasm_go_sdk.Plugin.Llm.{StreamInfo, Streams, assign, delete, end_info}
use deepflow_wasm_go_sdk.Plugin.Llm.Handlers.{set_stream, drop_stream}
use deepflow_wasm_go_sdk.Plugin.LlmTest.{brief_info}

-- The same action, or the metrics of the same stream.
pub data SameAction : Option Action → Option Action → Type 0 where
  same : {a : Option Action} → SameAction a a
  metrics :
      (stream : StreamInfo) (tpot : ℕ)
      → SameAction
          (some (one_info (end_info stream tpot)))
          (some (one_info (brief_info stream tpot)))

-- The same context and such actions.
pub data SameAnswer : ParseCtx × Option Action → ParseCtx × Option Action → Type 0 where
  answer : {ctx : ParseCtx} {a a' : Option Action} → SameAction a a' → SameAnswer (ctx, a) (ctx, a')

-- Two runs that both panic, or that end with related values and the same streams.
pub data SameRun {H A : Type 0} (R : A → A → Type 0)
    : Option (A × (H × Streams)) → Option (A × (H × Streams)) → Type 0 where
  both_panic : SameRun R none none
  both_end :
      {a a' : A} {h h' : H} {streams : Streams}
      → R a a'
      → SameRun R (some (a, (h, streams))) (some (a', (h', streams)))

-- Two computations with the same runs on the same streams, whatever the agents' states.
pub record Sim {H : Type 0} (m m' : Vm (H × Streams) (Option Action)) : Type 0 where
  pub at : (h h' : H) (streams : Streams) → SameRun SameAction (m (h, streams)) (m' (h', streams))

module _ {H : Type 0} (host : HostFunctions H) where
  pub Sim-pure : (a : Option Action) → Sim {H = H} (pure a) (pure a)
  Sim-pure a = record { at = λ h h' streams. both_end same }

  pub Sim-if :
      (b : Bool) (m m' k k' : Vm (H × Streams) (Option Action))
      → Sim m m'
      → Sim k k'
      → Sim (if b then m else k) (if b then m' else k')
  Sim-if true m m' k k' s t = s
  Sim-if false m m' k k' s t = t

  -- llm.go logs.
  pub Sim-log :
      (message : Message) (m m' : Vm (H × Streams) (Option Action))
      → Sim m m'
      → Sim (log (beside host) message >> m) m'
  unfolding log
  Sim-log message m m' s = record { at = λ h h' streams. s.at (host.wasm_log h message) h' streams }

  pub Sim-set_stream :
      (flow : ℕ) (info : StreamInfo) (m m' : Vm (H × Streams) (Option Action))
      → Sim m m'
      → Sim (set_stream host flow info >> m) (set_stream host flow info >> m')
  Sim-set_stream flow info m m' s = record {
    at = λ h h' streams. s.at h h' (assign flow info streams);
  }

  pub Sim-drop_stream :
      (flow : ℕ) (m m' : Vm (H × Streams) (Option Action))
      → Sim m m'
      → Sim (drop_stream host flow >> m) (drop_stream host flow >> m')
  Sim-drop_stream flow m m' s = record { at = λ h h' streams. s.at h h' (delete flow streams) }
