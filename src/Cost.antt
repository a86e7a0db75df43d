-- ===== src/Cost.antt =====
-- internal/cost: what a workload is expected to cost, and what past runs say of it.
pub mod Parse
pub mod Estimator
pub mod Median
pub mod History
pub mod WithHistory
