-- ===== src/FdManager.antt =====
-- civan/fd_manager.h and civan/fd_manager.cc: what the hooks know of each file descriptor.
pub mod State
pub mod Lookup
mod Tests
