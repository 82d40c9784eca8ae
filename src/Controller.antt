-- ===== src/Controller.antt =====
-- apps/controller/contract.py: the replay of one generation, from the request and the result of the
-- controller. The timeout of a generation stands with the driver, which asks for it.
pub mod Reports
pub mod Traces
pub mod Generations
pub mod Replayed
pub mod Evidence
pub mod Commands
pub mod Requested
pub mod Accepted
