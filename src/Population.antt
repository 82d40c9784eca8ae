-- ===== src/Population.antt =====
-- apps/population: the Population Archive.
pub mod Types
pub mod Schema
pub mod Candidates
pub mod Experiments
pub mod Evidence
pub mod Runs
pub mod Aggregate
pub mod Pareto
pub mod Archives
pub mod Allocations
pub mod Documents
pub mod State
