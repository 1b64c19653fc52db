-- ===== src/Slists.antt =====
-- The `curl_slist`s that an `HttpConnection` makes, hands to libcurl and frees.
pub mod State
pub mod Ownership
pub mod Safety
pub mod Contents
pub mod Shows
pub mod Refinement
pub mod Tests
