-- ===== src/Tests.antt =====
-- Runs of the definitions on concrete input.
pub mod Site
pub mod Configuration
pub mod Exchange
pub mod Authzen
pub mod Evaluation
pub mod CommandLine
pub mod Echo
pub mod Point
pub mod Server
