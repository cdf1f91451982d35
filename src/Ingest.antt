-- ===== src/Ingest.antt =====
-- backend/internal/ingest.
pub mod Protocol
pub mod Durability
pub mod UploadId
pub mod Removal
pub mod Backoff
pub mod Processing
pub mod Registry
pub mod Reconcile
