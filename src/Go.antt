-- ===== src/Go.antt =====
-- The part of Go that the SDK relies on: panics, slices of bytes and encoding/binary.
pub mod Result
pub mod Slices
pub mod Binary
pub mod Reads
pub mod Copy
pub mod Strings
pub mod Ints
pub mod Lines
