-- ===== src/FdManager.antt =====
-- sylar/fd_manager.h and sylar/fd_manager.cc: what the hooks know of each file descriptor.
pub mod Table
pub mod Laws
mod Tests
