-- ===== src/Log.antt =====
-- log.h and log.cpp, with `CURLION_VERBOSE` set.
pub mod State
pub mod Lines
pub mod Tests
