-- ===== src/Gateway.antt =====
-- The source-neutral gateway, src/macmini_ai_hub/gateway.
pub mod Models
pub mod Ports
pub mod Dedup
pub mod Service
