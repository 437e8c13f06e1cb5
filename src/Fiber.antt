-- ===== src/Fiber.antt =====
-- src/sylar/fiber.cc: fibers and their states.
pub mod State
