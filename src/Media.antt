-- ===== src/Media.antt =====
-- backend/internal/media: the inspection of uploaded files and the files of published items.
pub mod Bytes
pub mod Boxes
pub mod Heif
pub mod Staging
pub mod Purge
