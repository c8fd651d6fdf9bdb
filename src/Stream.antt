-- ===== src/Stream.antt =====
-- civan/stream.h and civan/stream.cc: reads and writes of a fixed size over a stream.
pub mod Fix
mod Tests
