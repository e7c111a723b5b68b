-- ===== src/Parser.antt =====
-- sdk/parser.go: hook points, the actions that a plugin returns and the interface of a plugin.
pub mod Action
pub mod Hooks
pub mod Interface
pub mod Default
