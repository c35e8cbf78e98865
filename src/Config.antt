-- ===== src/Config.antt =====
-- config.go: the process-wide configuration and the reading of the environment.
pub mod Numbers
pub mod Load
pub mod Laws
pub mod Errors
pub mod Bounds
pub mod Messages
