-- ===== src/Log.antt =====
-- sdk/log.go: the messages that the SDK logs. The formatted text is not modelled; a constructor
-- stands for each call of Info, Warn or Error in the SDK and the plugins, with
-- the values that are formatted into it; plugin_loaded stands for the call of each plugin's main.
use deepflow_wasm_go_sdk.Prelude.{ℕ, List}

pub data Message : Type 0 where
  string_buf_size : Message
  ip_type_short ipv4_short ipv6_short ctx_short proc_name_short flow_id_short : Message
  unexpected_ip_type unexpected_l4 unexpected_ebpf unexpected_direction unknown_status : ℕ → Message
  custom_message_short http_req_short : Message
  l7_info_too_large : Message
  payload_over_page : ℕ → Message
  http_req_error http_resp_error custom_message_error parse_payload_error : Message
  http_req_multi http_resp_multi custom_message_multi : Message
  dns_get_payload_fail : Message
  dns_no_question dns_no_answer : List ℕ → ℕ → List ℕ → ℕ → Message
  gzip_fail : List ℕ → Message
  dubbo_empty : Message
  llm_check : List ℕ → Message
  llm_req_start llm_resp_start : List ℕ → ℕ → List ℕ → ℕ → ℕ → Message
  llm_resp_end : ℕ → Message
  llm_resp_line : List ℕ → Message
  llm_resp_chunk : ℕ → List ℕ → Message
  llm_total : ℕ → Message
  plugin_loaded : Message
