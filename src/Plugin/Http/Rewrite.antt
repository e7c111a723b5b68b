-- ===== src/Plugin/Http/Rewrite.antt =====
-- example/http_status_rewrite/http_status_rewrite.go: the status of a response by the OPT_STATUS in its
-- body.
pub mod Found
pub mod Status
pub mod Fragment
pub mod Whole
use deepflow_wasm_go_sdk.Prelude.{
  ℕ, Bool, Option, none, some, List, [], ◌∷◌, ◌++◌, if◌then◌else◌, length, drop,
}
use deepflow_wasm_go_sdk.Prelude.Int.{ℤ, pos}
use deepflow_wasm_go_sdk.Prelude.Text.{codes, bytes_eq, has_prefix}
use deepflow_wasm_go_sdk.Go.Slices.{Bytes}
use deepflow_wasm_go_sdk.Go.Strings.{cut}
use deepflow_wasm_go_sdk.Log.{gzip_fail}
use deepflow_wasm_go_sdk.Host.{HttpRespCtx, Response, KeyVal, L7ProtocolInfo}
use deepflow_wasm_go_sdk.Agent.{HostFunctions, Vm, pure, ◌>>=◌, ◌>>◌, log}
use deepflow_wasm_go_sdk.Pb.Unmarshal.{Skip}
use deepflow_wasm_go_sdk.Parser.Action.{
  Error, foreign, Action, action_next, action_abort, empty_info, empty_response,
}
use deepflow_wasm_go_sdk.Parser.Hooks.{hook_point_http_resp}
use deepflow_wasm_go_sdk.Parser.Default.{no_check, default_parser}
use deepflow_wasm_go_sdk.Parser.Interface.{Parser}
use deepflow_wasm_go_sdk.Plugin.{
  Returned, value, error, one_info, in_range, get_status, payload_or_abort,
}
use deepflow_wasm_go_sdk.Plugin.Http.{
  HttpResponse, Field, missing, other, text, Gunzip, gunzipped, gzip_error, Libraries,
}

-- {"OPT_STATUS":"
abbrev pub body_start : Bytes
body_start = codes "{\"OPT_STATUS\":\""

abbrev pub status_response : ℤ → Bytes → Response
status_response code result = record empty_response {
  status = some (get_status code);
  code = some code;
  result = result;
}

-- normalResp
abbrev pub normal_info : ℤ → L7ProtocolInfo
normal_info code = record empty_info { resp = some (status_response code []) }

-- switch status
unfoldable pub rewritten : ℤ → Bytes → Bytes → L7ProtocolInfo
rewritten code body status =
    let success = bytes_eq status (codes "SUCCESS") in
    let code' : ℤ = if success then code else if in_range 200 300 code then pos 500 else code in
    record empty_info {
      resp = some (status_response code' (if success then [] else body));
      kv = record { key = codes "op_stat"; val = status } ∷ [];
    }

-- for i := 0; i < len(buf); i++: what stands in front of the first quotation mark, if there is one.
abbrev before_quote : Option (Bytes × Bytes) → Bytes
before_quote none = []
before_quote (some (before, behind)) = before

abbrev pub scan : Bytes → Bytes
scan buf = before_quote (cut 34 buf)

abbrev pub on_empty_status : ℤ → Bytes → L7ProtocolInfo
on_empty_status code body =
    if has_prefix body body_start
    then rewritten code body (scan (drop (length body_start) body))
    else normal_info code

-- m["OPT_STATUS"]
unfoldable pub on_field : ℤ → Bytes → Field → L7ProtocolInfo
on_field code body other = normal_info code
on_field code body missing = on_empty_status code body
on_field code body (text []) = on_empty_status code body
on_field code body (text (b ∷ bs)) = rewritten code body (b ∷ bs)

module _ (libraries : Libraries) where
  open libraries use {read_response, gunzip, json_field}

  -- onResp behind the body.
  unfoldable pub on_body : ℤ → Bytes → L7ProtocolInfo
  on_body code [] = normal_info code
  on_body code (b ∷ bs) = on_field code (b ∷ bs) (json_field (b ∷ bs) (codes "OPT_STATUS"))

  module _ {H : Type 0} (host : HostFunctions H) where
    abbrev on_gzip : ℤ → Gunzip → Vm H L7ProtocolInfo
    on_gzip code (gunzipped body) = pure (on_body code body)
    on_gzip code (gzip_error e) = log host (gzip_fail e) >> pure (normal_info code)

    unfoldable pub on_resp : HttpResponse → Vm H L7ProtocolInfo
    on_resp r =
        if bytes_eq (r.header (codes "Content-Encoding")) (codes "gzip")
        then on_gzip r.status_code (gunzip r.body)
        else pure (on_body r.status_code r.body)

    abbrev on_read : Returned HttpResponse → Vm H (Option Action)
    on_read (error e) = pure (some action_abort)
    on_read (value r) = do info ← on_resp r; pure (some (one_info info))

    unfoldable pub on_http_resp : HttpRespCtx → Vm H (HttpRespCtx × Option Action)
    on_http_resp ctx = do
      (base_ctx, action) ←
          payload_or_abort host ctx.base_ctx (λ payload. on_read (read_response payload))
      pure (record ctx { base_ctx = base_ctx }, action)

    abbrev pub rewrite_parser : Skip → Parser H
    rewrite_parser s = record (default_parser s none) {
      on_http_req = λ ctx. pure (ctx, some action_next);
      on_http_resp = on_http_resp;
      on_check_payload = λ ctx. pure (ctx, no_check);
      on_parse_payload = λ ctx. pure (ctx, some action_next);
      hook_in = pure (hook_point_http_resp ∷ []);
    }
