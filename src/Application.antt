-- ===== src/Application.antt =====
-- The adapters between the gateway, the store and the orchestrator, src/macmini_ai_hub/application.
pub mod Adapters
