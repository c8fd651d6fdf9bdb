-- ===== src/IoManager.antt =====
-- `IOManager` of civan/iomanager.cc: its table of descriptors and the events it waits for.
pub mod State
pub mod Table
pub mod Pending
pub mod Dispatch
pub mod Counted
pub mod Late
pub mod Contexts
pub mod Invariant
pub mod Calls
mod Tests
