-- ===== src/Log.antt =====
-- sylar/log.h and sylar/log.cc: levels, the patterns of formatters, loggers and appenders.
pub mod Level
pub mod Pattern
pub mod Logger
pub mod Scan
pub mod RoundTrip
pub mod Percent
pub mod Emit
mod Tests
