-- ===== src/Scheduler.antt =====
-- civan/scheduler.h and civan/scheduler.cc.
pub mod State
pub mod Queue
pub mod Workers
pub mod Steps
pub mod System
pub mod Invariant
pub mod Stopping
mod Tests
