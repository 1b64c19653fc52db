-- ===== src/Http.antt =====
-- http_connection.h and http_connection.cpp.
pub mod Text
pub mod Multimap
pub mod Split
pub mod Pieces
pub mod State
pub mod Headers
pub mod Requests
pub mod Running
pub mod Kept
pub mod Transfer
pub mod Tests
