-- ===== src/Tests/Plugins.antt =====
-- The plugins, on payloads of the tests.
use deepflow_wasm_go_sdk.Prelude.{
  ◌+◌, ◌^◌, ◌≡◌, refl, true, some, none, [], ◌∷◌, ◌++◌, leb, if◌then◌else◌, Option, ◌==◌, length,
  take, drop, arith,
}
use deepflow_wasm_go_sdk.Prelude.Int.{pos}
use deepflow_wasm_go_sdk.Prelude.Text.{codes}
use deepflow_wasm_go_sdk.Go.Result.{ok, panic}
use deepflow_wasm_go_sdk.Go.Slices.{Bytes, slice}
use deepflow_wasm_go_sdk.Go.Binary.{uint16}
use deepflow_wasm_go_sdk.Agent.Payload.{get_payload}
use deepflow_wasm_go_sdk.Host.{ParseCtx, direction_request}
use deepflow_wasm_go_sdk.Parser.Action.{header_kv_short}
use deepflow_wasm_go_sdk.Plugin.{value, error, one_info, checked}
use deepflow_wasm_go_sdk.Plugin.Uprobe.{parse_header}
use deepflow_wasm_go_sdk.Plugin.Uprobe.Header.{header, parse_header_fits, parse_header_panics}
use deepflow_wasm_go_sdk.Plugin.Krpc.{fill, fill_from_pb, KrpcPb, KrpcMeta, KrpcInfo, parse}
use deepflow_wasm_go_sdk.Plugin.Krpc.Handlers.{
  empty_krpc_info, on_check_payload, on_parse_payload, info_of, request_of,
}
use deepflow_wasm_go_sdk.Plugin.Krpc.Checked.{checked_answered}
use deepflow_wasm_go_sdk.Plugin.Http.{Libraries, Field, missing, text, gunzipped}
use deepflow_wasm_go_sdk.Plugin.Http.Rewrite.{body_start, on_body}
use deepflow_wasm_go_sdk.Plugin.Http.Rewrite.Found.{Found}
use deepflow_wasm_go_sdk.Plugin.Http.Rewrite.Status.{Answered, on_body-Answered}
use deepflow_wasm_go_sdk.Plugin.Http.Rewrite.Fragment.{without_result, on_body_fragment}
use deepflow_wasm_go_sdk.Tests.Data.{dns_ctx, agent}

abbrev fd : Bytes
fd = 3 ∷ 0 ∷ 0 ∷ 0 ∷ []

abbrev abc : Bytes
abc = codes "abc"

parse_header_fits_example : parse_header (header fd 5 1 2 abc) ≡ (
    if leb (1 + 2) (length abc)
    then ok (value (5, take 1 abc, take 2 (drop 1 abc)))
    else ok (error (header_kv_short 1 2 (16 + length abc))))
parse_header_fits_example = parse_header_fits fd 5 1 2 abc refl (omega arith) (omega arith)

parse_header_panics_example : parse_header (header fd 5 1 (2 ^ 31) abc) ≡ panic
parse_header_panics_example =
    parse_header_panics fd 5 1 (2 ^ 31) abc refl (omega arith) (omega arith) (omega arith)
      (omega arith) (omega arith)

-- A decoder that finds the same request of method 7 of service 9 in all bytes.
abbrev pub meta : KrpcMeta
meta = record {
  direction = pos 1;
  service_id = pos 9;
  msg_id = pos 7;
  sequence = pos 4;
  ret_code = pos 0;
  trace = none;
}

abbrev pub krpc_pb : KrpcPb
krpc_pb = record { unmarshal_krpc_meta = λ bs. (meta, true) }

abbrev pub krpc_bytes : Bytes
krpc_bytes = codes "KR" ++ (0 ∷ 1 ∷ 0 ∷ 0 ∷ 0 ∷ 0 ∷ 8 ∷ [])

abbrev krpc_ctx : ParseCtx
krpc_ctx = record dns_ctx { payload = some krpc_bytes; l4 = 6 }

krpc_checks :
    on_check_payload (agent []) krpc_pb krpc_ctx []
    ≡ some ((krpc_ctx, checked 1 (codes "KRPC")), [])
unfolding on_check_payload get_payload parse fill fill_from_pb uint16 slice
krpc_checks = refl

checked_answered_example :
    (k : KrpcInfo) × (parse krpc_pb empty_krpc_info krpc_bytes true ≡ ok (some k))
    × (k.msg_type ≡ direction_request)
    × (on_parse_payload (agent []) krpc_pb krpc_ctx []
        ≡ some ((krpc_ctx, some (one_info (info_of k (some (request_of k)) none))), []))
checked_answered_example =
    checked_answered (agent []) krpc_pb krpc_ctx krpc_ctx krpc_ctx krpc_bytes
      (checked 1 (codes "KRPC")) [] [] [] refl krpc_checks (omega arith) refl refl refl

abbrev libraries : Libraries
libraries = record {
  read_request = λ bs. value (record { path = bs; query = λ k. []; header = λ k. none });
  read_response = λ bs.
      value (record { status_code = pos 200; header = λ k. []; body = bs; body_error = none });
  gunzip = λ bs. gunzipped bs;
  json_field = λ body key. text (codes "FAIL");
  exists = λ body key. true;
  get_int = λ body keys. pos 0;
  time_text = λ t. [];
}

on_body-Answered_example :
    (s : Option Bytes) × Found libraries (codes "{") s
    × ((s' : Option Bytes) → Found libraries (codes "{") s' → s' ≡ s)
    × Answered (pos 200) (codes "{") s (on_body libraries (pos 200) (codes "{"))
on_body-Answered_example = on_body-Answered libraries (pos 200) (codes "{")

-- A JSON text is whole where it ends with a brace.
abbrev closed : Bytes → Field
closed [] = missing
closed (b ∷ []) = if b == 125 then text (codes "FAIL") else missing
closed (b ∷ c ∷ bs) = closed (c ∷ bs)

abbrev tcp_libraries : Libraries
tcp_libraries = record libraries { json_field = λ body key. closed body }

on_body_fragment_example :
    without_result
      (on_body tcp_libraries (pos 200) (body_start ++ (codes "FAIL" ++ (34 ∷ codes ",\"a"))))
    ≡ without_result (on_body tcp_libraries (pos 200) (codes "{}"))
on_body_fragment_example =
    on_body_fragment tcp_libraries (pos 200) 70 (codes "AIL") (codes ",\"a") (codes "{}")
      (refl, (refl, (refl, (refl, tt)))) refl (λ e. cc) refl
