-- ===== src/Easy.antt =====
-- example/easy.cpp.
pub mod State
pub mod Prints
pub mod Tests
