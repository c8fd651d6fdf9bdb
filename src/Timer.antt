-- ===== src/Timer.antt =====
-- civan/timer.h and civan/timer.cc: timers kept in the order in which they fire.
pub mod State
pub mod Order
pub mod Preserve
pub mod Handles
pub mod Expiry
pub mod Wait
mod Tests
