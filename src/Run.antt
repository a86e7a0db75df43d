-- ===== src/Run.antt =====
-- internal/run: the state machine of a run, and the executor that drives it.
pub mod State
pub mod Machine
pub mod Cost
pub mod Record
pub mod Reconnect
pub mod World
pub mod Sampler
pub mod Executor
