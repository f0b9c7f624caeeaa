-- ===== src/Config.antt =====
-- src/config.c: the configuration, from defaults, the lines of a file and the environment.
pub mod Number
pub mod Value
pub mod Apply
pub mod Bounds
pub mod Size
mod Tests
