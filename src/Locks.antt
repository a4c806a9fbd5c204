-- ===== src/Locks.antt =====
-- The project locks, src/macmini_ai_hub/locks.
pub mod Metadata
pub mod FileLock
