-- ===== src/Tests.antt =====
-- Runs on concrete inputs, at which the theorems apply.
mod Fixtures
mod Sessions
mod Names
mod Settings
mod Timing
mod Relaying
mod Resolving
