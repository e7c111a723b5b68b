-- ===== src/Plugin/Load.antt =====
-- sdk/parser.go, SetParser and the global vmParser, and the main functions of the plugins in example/, but those of
-- http_streaming_llm, which do not compile.
use deepflow_wasm_go_sdk.Prelude.{Option, none, some, List, []}
use deepflow_wasm_go_sdk.Log.{plugin_loaded}
use deepflow_wasm_go_sdk.Agent.{HostFunctions, Vm, ◌>>◌, log}
use deepflow_wasm_go_sdk.Pb.Varint.{Varint}
use deepflow_wasm_go_sdk.Pb.Unmarshal.{Skip}
use deepflow_wasm_go_sdk.Parser.Interface.{Parser}
use deepflow_wasm_go_sdk.Abi.Session.{Call, run_calls}
use deepflow_wasm_go_sdk.Plugin.Stateful.{beside}
use deepflow_wasm_go_sdk.Plugin.Uprobe.{Orders}
use deepflow_wasm_go_sdk.Plugin.Uprobe.Handlers.{uprobe_parser}
use deepflow_wasm_go_sdk.Plugin.Krpc.{KrpcPb}
use deepflow_wasm_go_sdk.Plugin.Krpc.Handlers.{krpc_parser}
use deepflow_wasm_go_sdk.Plugin.Http.{Libraries}
use deepflow_wasm_go_sdk.Plugin.Http.Hook.{http_hook}
use deepflow_wasm_go_sdk.Plugin.Http.Rewrite.{rewrite_parser}
use deepflow_wasm_go_sdk.Plugin.Dns.{DnsPackage, dns_parser}
use deepflow_wasm_go_sdk.Plugin.Dubbo.{FastJson, dubbo_parser}
use deepflow_wasm_go_sdk.Plugin.Zmtp.{Wrapper, zmtp_parser}
use deepflow_wasm_go_sdk.Plugin.Nrpc.{Json, Kv, nrpc_parser}

-- A function of Go over the agent's state and vmParser.
abbrev pub Main : Type 0 → Type 0
Main H = Vm (H × Option (Parser H)) (Unit {0})

-- SetParser
unfoldable pub set_parser : {H : Type 0} → Parser H → Main H
set_parser p (h, vm_parser) = some (tt, (h, some p))

-- The module that the agent loads: main, with vmParser nil, and then the calls of the agent.
unfoldable pub session :
    {H : Type 0} → Varint → HostFunctions H → Main H → List Call → Vm H (Unit {0})
session v host main cs h = elim (main (h, none)) [
  | none ↦ none
  | some (u, (h', vm_parser)) ↦ run_calls v host vm_parser cs h'
]

module _ {H : Type 0} (host : HostFunctions H) where
  unfoldable pub uprobe_main : Orders → Skip → Main H
  uprobe_main orders s = do
    set_parser (uprobe_parser host orders s)
    log (beside host) plugin_loaded

  unfoldable pub krpc_main : KrpcPb → Skip → Main H
  krpc_main pb s = do log (beside host) plugin_loaded; set_parser (krpc_parser host pb s)

  unfoldable pub http_main : Libraries → Skip → Main H
  http_main libraries s = do
    log (beside host) plugin_loaded
    set_parser (http_hook host libraries s)

  unfoldable pub rewrite_main : Libraries → Skip → Main H
  rewrite_main libraries s = do
    log (beside host) plugin_loaded
    set_parser (rewrite_parser libraries host s)

  unfoldable pub dns_main : DnsPackage → Skip → Main H
  dns_main dnsmessage s = do
    log (beside host) plugin_loaded
    set_parser (dns_parser dnsmessage host s)

  unfoldable pub dubbo_main : FastJson → Skip → Main H
  dubbo_main json s = do log (beside host) plugin_loaded; set_parser (dubbo_parser json host s)

  unfoldable pub zmtp_main : Wrapper → Skip → Main H
  zmtp_main wrapper s = do log (beside host) plugin_loaded; set_parser (zmtp_parser wrapper s)

  -- A new map of the plugin.
  abbrev make_map : {S : Type 0} → S → Main (H × S)
  make_map empty ((h, s), vm_parser) = some (tt, ((h, empty), vm_parser))

  unfoldable pub nrpc_main : Json → Skip → Main (H × Kv)
  nrpc_main json s = do
    log (beside (beside host)) plugin_loaded
    set_parser (nrpc_parser json s)
    make_map []
