-- ===== src/Http.antt =====
-- civan/http/http.h and civan/http/http.cc.
pub mod Method
pub mod Status
pub mod Names
pub mod CaseInsensitive
pub mod Params
pub mod Scan
pub mod Query
pub mod Request
pub mod Lookup
pub mod Lazy
pub mod Fresh
pub mod Response
pub mod Dump
pub mod Connection
pub mod Decimal
pub mod Order
mod Tests
