-- ===== src/ByteArray.antt =====
-- civan/bytearray.h and civan/bytearray.cc: a growing byte array in a chain of blocks.
pub mod Nodes
pub mod Doubles
pub mod State
pub mod Memory
pub mod Loops
pub mod Invariant
pub mod Write
pub mod Read
pub mod Append
pub mod Feed
pub mod Codec
pub mod Fixed
pub mod Varint
pub mod Zigzag
pub mod Fields
pub mod RoundTrip
pub mod Cursor
pub mod Buffers
mod Tests
