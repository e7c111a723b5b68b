-- ===== src/Serde.antt =====
-- sdk/serde.go: the binary formats between the agent and a plugin.
pub mod Str
pub mod Strings
pub mod ParseCtx
pub mod HttpReq
pub mod HttpResp
pub mod CustomMessage
pub mod L7Info
