-- ===== src/Run/Executor.antt =====
-- internal/run/executor.go: Execute and what it calls.
pub mod Cleanup
pub mod Wait
pub mod Ephemeral
pub mod Launch
pub mod Teardown
pub mod Consent
pub mod Holding
pub mod Release
pub mod Polls
pub mod Recovery
