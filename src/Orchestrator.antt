-- ===== src/Orchestrator.antt =====
-- The orchestrator, src/macmini_ai_hub/orchestrator.
pub mod Ports
pub mod Calls
pub mod Selection
pub mod Service
pub mod Durable
