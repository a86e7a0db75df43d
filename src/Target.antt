-- ===== src/Target.antt =====
-- internal/target: can a target run a workload, and as what?
pub mod Match
pub mod Feasible
pub mod Verdict
pub mod Registry
