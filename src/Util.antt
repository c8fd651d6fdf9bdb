-- ===== src/Util.antt =====
-- `StringUtil` of civan/util.h and civan/util.cc.
pub mod Url
pub mod Loops
pub mod RoundTrip
pub mod Safe
pub mod Trim
pub mod Ends
mod Tests
