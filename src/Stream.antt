-- ===== src/Stream.antt =====
-- sylar/stream.cc and sylar/socket_stream.cc: streams, and the calls that move a fixed size.
pub mod FixSize
pub mod Socket
pub mod Progress
pub mod Failure
mod Tests
