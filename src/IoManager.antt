-- ===== src/IoManager.antt =====
-- sylar/iomanager.h and sylar/iomanager.cc: the events that the descriptors wait for.
pub mod State
pub mod Events
pub mod Valid
pub mod Register
pub mod Release
pub mod Cancel
pub mod Report
pub mod Ready
pub mod Aborts
pub mod Tests
