-- ===== src/Driver.antt =====
-- The population driver: the limits of a search and the next action.
pub mod Types
pub mod Costs
pub mod Planner
pub mod Rounds
pub mod Final
pub mod Attempts
pub mod Reservations
pub mod Budget
pub mod Interrupted
pub mod Ingestion
pub mod Chain
