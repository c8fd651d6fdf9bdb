-- ===== src/Servlet.antt =====
-- civan/http/servlet.h and civan/http/servlet.cc: which servlet answers a request.
pub mod Dispatch
pub mod Routes
pub mod Globs
mod Tests
