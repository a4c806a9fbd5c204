-- ===== src/Domain.antt =====
-- The domain layer, src/macmini_ai_hub/domain.
pub mod Time
pub mod Json
pub mod Status
pub mod Tasks
pub mod Events
