-- ===== src/Reactor.antt =====
-- IOManager::idle of sylar/iomanager.cc: one round over the timers, the scheduler and the events.
pub mod Round
pub mod Wait
pub mod HandOver
pub mod Composed
pub mod Exit
mod Tests
