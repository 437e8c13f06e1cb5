-- ===== src/Http.antt =====
-- sylar/http: the messages of HTTP and the servlets that answer them.
pub mod Bytes
pub mod Methods
pub mod MethodLaws
pub mod Headers
pub mod Names
pub mod HeaderLaws
pub mod Message
pub mod Fields
pub mod Servlet
pub mod Dispatch
mod Tests
