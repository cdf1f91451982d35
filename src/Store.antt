-- ===== src/Store.antt =====
-- backend/internal/store.
pub mod Job
pub mod Sql
pub mod Queue
pub mod Finish
pub mod Media
pub mod Keys
pub mod Claim
pub mod Publish
pub mod Purge
pub mod Moderation
pub mod Gallery
pub mod Rows
