-- ===== src/Tests.antt =====
-- The theorems at concrete inputs.
mod Data
mod Gate
mod Plans
mod Shards
mod Runs
mod Clouds
mod Commands
mod Attested
mod Measured
mod Sealed
