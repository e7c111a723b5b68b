-- ===== src/Plugin/Http.antt =====
-- example/http/http.go and example/http_status_rewrite/http_status_rewrite.go: what they use of net/http,
-- encoding/json, compress/gzip, fastjson and time. The libraries are parameters.
pub mod Rewrite
pub mod Hook
use deepflow_wasm_go_sdk.Prelude.{Option, Bool, List}
use deepflow_wasm_go_sdk.Prelude.Int.{ℤ}
use deepflow_wasm_go_sdk.Go.Slices.{Bytes}
use deepflow_wasm_go_sdk.Plugin.{Returned}

-- An http.Request: Path of its URL, Get of the URL's query, and the values of a header field.
pub record HttpRequest : Type 0 where
  pub path : Bytes
  pub query : Bytes → Bytes
  pub header : Bytes → Option (List Bytes)

-- An http.Response: StatusCode, Get of its Header, and io.ReadAll of its Body: the bytes that are
-- read, with the error behind them if there is one.
pub record HttpResponse : Type 0 where
  pub status_code : ℤ
  pub header : Bytes → Bytes
  pub body : Bytes
  pub body_error : Option Bytes

-- m[key] of a map[string]interface{}: missing, a string, or anything else.
pub data Field : Type 0 where
  missing other : Field
  text : Bytes → Field

-- gzip.NewReader fails with an error, or io.ReadAll reads from what it gives.
pub data Gunzip : Type 0 where
  gzip_error gunzipped : Bytes → Gunzip

-- http.ReadRequest and http.ReadResponse on a payload; gzip; a field of the map that json.Unmarshal fills; fastjson.Exists and GetInt of keys;
-- time.Unix(_, 0).String().
pub record Libraries : Type 0 where
  pub read_request : Bytes → Returned HttpRequest
  pub read_response : Bytes → Returned HttpResponse
  pub gunzip : Bytes → Gunzip
  pub json_field : Bytes → Bytes → Field
  pub exists : Bytes → Bytes → Bool
  pub get_int : Bytes → List Bytes → ℤ
  pub time_text : ℤ → Bytes
