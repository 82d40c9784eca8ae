-- ===== src/Tests.antt =====
-- Small inputs on which the theorems about the population apply, and the tests.
pub mod Samples
pub mod Ledgers
pub mod Choices
pub mod Starts
pub mod Archived
pub mod Decoders
pub mod Selections
pub mod Generations
mod Rounds
mod Chains
