-- ===== src/Hook.antt =====
-- civan/hook.cc.
pub mod Io
pub mod Flags
pub mod Waits
pub mod Connect
mod Tests
