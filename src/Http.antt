-- ===== src/Http.antt =====
-- backend/internal/httpapi: the upload side of the HTTP server.
pub mod Reply
pub mod Hooks
pub mod Proxy
pub mod Status
pub mod StorageCleanup
