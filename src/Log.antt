-- ===== src/Log.antt =====
-- The formatter of civan/log.h and civan/log.cc.
pub mod Formatter
pub mod Level
pub mod Pattern
mod Tests
