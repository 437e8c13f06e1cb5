-- ===== src/Hook.antt =====
-- sylar/hook.cc: the system calls that the library replaces.
pub mod Descriptors
pub mod Flags
pub mod Entries
pub mod DoIo
pub mod Waits
pub mod Timeouts
pub mod Returns
pub mod Untimed
pub mod Sleep
pub mod Connect
pub mod Close
pub mod Closed
mod Tests
