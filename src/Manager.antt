-- ===== src/Manager.antt =====
-- connection_manager.h and connection_manager.cpp, and what they use of socket_watcher.h, timer.h
-- and socket_factory.h.
pub mod Table
pub mod State
pub mod Step
pub mod Cases
pub mod Obeys
pub mod Watching
pub mod Registered
pub mod Consistent
pub mod Every
pub mod Run
pub mod Wired
pub mod Life
pub mod Sound
pub mod Ready
pub mod Reads
pub mod Effects
pub mod Sockets
pub mod Termination
pub mod Behaviour
pub mod Finishing
pub mod Queue
pub mod Round
pub mod Delivery
pub mod Request
pub mod Example
pub mod Tests
pub mod RequestTests
pub mod LifeTests
