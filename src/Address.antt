-- ===== src/Address.antt =====
-- sylar/address.cc: the addresses of a prefix.
pub mod Prefix
pub mod Masks
pub mod Ones
mod Tests
