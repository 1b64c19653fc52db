-- ===== src/Connection.antt =====
-- connection.h and connection.cpp.
pub mod State
pub mod Body
pub mod Callbacks
pub mod Options
pub mod Calls
pub mod Running
pub mod Reading
pub mod Seeking
pub mod Quiet
pub mod Response
pub mod Lifecycle
pub mod Wiring
pub mod Public
pub mod Keeping
pub mod Starting
pub mod Ready
pub mod Refusals
pub mod Tracing
pub mod Tests
pub mod RefusalTests
