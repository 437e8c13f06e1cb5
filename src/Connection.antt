-- ===== src/Connection.antt =====
-- sylar/http/http_connection.h and sylar/http/http_connection.cc: the pool of connections.
pub mod Pool
pub mod Lent
pub mod Age
mod Tests
