-- ===== src/Tests/Texts.antt =====
-- strings, strconv and bufio, on texts of the tests.
use deepflow_wasm_go_sdk.Prelude.{◌≡◌, refl, none, some, [], ◌∷◌}
use deepflow_wasm_go_sdk.Prelude.Int.{pos, negsuc}
use deepflow_wasm_go_sdk.Prelude.Text.{codes}
use deepflow_wasm_go_sdk.Go.Strings.{split_byte, trim_space, format_int, parse_int16}
use deepflow_wasm_go_sdk.Plugin.Http.Hook.{trace_of}

minus_five : format_int (negsuc 41) ≡ codes "-42"
unfolding format_int
minus_five = refl

parse_status : parse_int16 (codes "404") ≡ some (pos 404)
unfolding parse_int16
parse_status = refl

parse_large : parse_int16 (codes "32768") ≡ none
unfolding parse_int16
parse_large = refl

split_three : split_byte 44 (codes "a,,b") ≡ codes "a" ∷ [] ∷ codes "b" ∷ []
unfolding split_byte
split_three = refl

trim_both : trim_space (codes "  a b ") ≡ codes "a b"
unfolding trim_space
trim_both = refl

trace_header :
    trace_of (some (codes "trace_id: xxx, span_id: sss" ∷ []))
    ≡ some (record {
      trace_id = codes "xxx";
      span_id = codes "sss";
      parent_span_id = [];
      x_request_id = [];
      http_proxy_client = [];
      trace_ids = [];
    })
unfolding trace_of split_byte trim_space
trace_header = refl
