-- ===== src/Scheduler.antt =====
-- sylar/scheduler.h and sylar/scheduler.cc: the queue that the threads of a scheduler take from.
pub mod Queue
pub mod Run
pub mod Pick
pub mod Active
mod Counts
pub mod Invariant
pub mod Races
pub mod Stages
pub mod Drain
mod Tests
mod RunTests
