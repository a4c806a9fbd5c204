-- ===== src/Examples.antt =====
-- Concrete inputs, and the theorems at them.
pub mod Samples
pub mod Domain
pub mod Storage
pub mod Records
pub mod Projections
pub mod Gateway
pub mod Orchestrator
pub mod Locks
pub mod Recovery
pub mod Worker
