-- ===== src/Pb.antt =====
-- sdk/pb: the protobuf messages of WasmPluginApi.proto, and the code that protoc-gen-go-vtproto
-- generated for their sizes and their encoding.
pub mod Messages
pub mod Varint
pub mod Writer
pub mod Size
pub mod Marshal
pub mod Format
mod Wire
mod Lengths
pub mod Correct
pub mod Unmarshal
