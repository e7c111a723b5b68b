-- ===== src/Tests.antt =====
-- Concrete runs of the model, and the theorems at concrete inputs.
mod Data
mod Contexts
mod Results
mod Calls
mod Decoding
mod Plugins
mod Streams
mod Texts
mod Whole
mod Replies
mod Nats
mod Generator
