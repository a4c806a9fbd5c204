-- ===== src/Observability.antt =====
-- Observable state rebuilt from events, src/macmini_ai_hub/observability.
pub mod Projections
