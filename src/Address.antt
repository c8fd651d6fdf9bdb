-- ===== src/Address.antt =====
-- `Address` of civan/address.h and civan/address.cc.
pub mod Order
mod Tests
