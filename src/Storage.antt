-- ===== src/Storage.antt =====
-- The durable store, src/macmini_ai_hub/storage.
pub mod Models
pub mod Secrets
pub mod Pydantic
pub mod Transaction
pub mod Store
pub mod Tasks
pub mod Sound
pub mod Calls
pub mod Runs
pub mod Requests
pub mod Deliveries
pub mod Routes
pub mod Listing
pub mod Artifacts
pub mod Recovery
pub mod Adapters
