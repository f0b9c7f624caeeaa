-- ===== src/AuthLimit.antt =====
-- include/authlimit.h and src/authlimit.c: the brake on failing logins.
pub mod Table
pub mod Backoff
pub mod Retry
mod Tests
