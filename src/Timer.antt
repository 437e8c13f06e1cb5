-- ===== src/Timer.antt =====
-- sylar/timer.h and sylar/timer.cc: timers in an ordered set, and the manager that runs them out.
pub mod Manager
pub mod Order
pub mod Invariant
pub mod Due
pub mod RunOut
pub mod Members
pub mod Expire
pub mod Wait
pub mod Lost
pub mod Calls
mod Tests
