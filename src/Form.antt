-- ===== src/Form.antt =====
-- http_form.h, http_form.cpp and error.h.
pub mod State
pub mod Contents
pub mod Options
pub mod Parts
pub mod Owners
pub mod Lifetime
pub mod Serving
pub mod Shared
pub mod Tests
pub mod SharedTests
