-- ===== src/Fiber.antt =====
-- civan/fiber.h and civan/fiber.cc.
pub mod State
pub mod Switch
mod Tests
