-- ===== src/Shard.antt =====
-- internal/shard: one workload over many runs.
pub mod Assign
pub mod RoundRobin
pub mod Engine
