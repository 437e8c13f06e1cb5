-- ===== src/Env.antt =====
-- sylar/env.h and sylar/env.cc: the arguments of the program, its help and its paths.
pub mod State
pub mod Args
mod Tests
