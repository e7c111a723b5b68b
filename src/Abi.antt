-- ===== src/Abi.antt =====
-- sdk/abi_import.go and sdk/abi_export.go: the functions between the agent and the plugin.
pub mod Export
pub mod Outcome
pub mod Handlers
pub mod Refused
pub mod Status
pub mod Answers
pub mod Safe
pub mod Bounds
pub mod Keeps
pub mod Session
